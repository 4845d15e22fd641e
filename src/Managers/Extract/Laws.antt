-- ===== src/Managers/Extract/Laws.antt =====
-- What an extracted archive leaves on the host.
use kube_bundler.Go.Io.{attempt-ok}
use kube_bundler.Prelude.{
  ◌≡◌, refl, sym, ap, ◌∙◌, ℕ, zero, suc, String, true, Option, none, some, List, [], ◌∷◌, arith,
  inl, inr, ◌⊎◌, Bool-cases, eqb,
}
use mathlib.Core.Path.{subst}
use kube_bundler.Go.Errors.{Error, text, wrapped, is_file_exist, is_file_not_exist}
use kube_bundler.Go.Io.{
  Result, ok, err, panic, annotate, attempt, bind-ok, annotate-ok, Result-cases,
}
use kube_bundler.Managers.Extract.{
  EntryType, directory, regular, other, Header, FileInfo, TarTools, found_info, write_file,
  keep_or_write, opened, extract_file, extract_entry, extract,
}

pub EntryType-cases : (k : EntryType) → (k ≡ directory) ⊎ (k ≡ regular) ⊎ (k ≡ other)
EntryType-cases directory = inl refl
EntryType-cases regular = inr (inl refl)
EntryType-cases other = inr (inr refl)

module _ {W : Type 0} (t : TarTools W) (tar : ℕ) where
  -- A copy to a nil file is an error.
  abbrev pub CopyNeedsFile : Type 0
  CopyNeedsFile = (w : W) → (e : Error) × (u : W) × (t.copy none tar w ≡ (err e, u))

  -- A new file was created, and the entry was copied to it.
  pub record Written (path : String) (w w' : W) : Type 0 where
    pub file : ℕ
    pub looked : W
    pub created : W
    pub copied : W
    pub is_looked : (t.stat path w).1 ≡ looked
    pub is_created : t.open_new path looked ≡ (ok file, created)
    pub is_copied : t.copy (some file) tar created ≡ (ok tt, copied)
    pub is_closed : t.close (some file) copied ≡ (ok tt, w')

  -- There is a file of the entry's size, which was left alone.
  pub record Kept (h : Header) (path : String) (w w' : W) : Type 0 where
    pub info : FileInfo
    pub looked : W
    pub error : Error
    pub is_found : t.stat path w ≡ (ok info, looked)
    pub refused : t.open_new path looked ≡ (err error, w')
    pub exists : is_file_exist error ≡ true
    pub same_size : info.size ≡ h.size

  abbrev pub DoneAs : EntryType → String → Header → W → W → Type 0
  DoneAs directory dir h w w' = t.mkdir_all (t.join (dir ∷ h.name ∷ [])) w ≡ (ok tt, w')
  DoneAs regular dir h w w' =
      Written (t.join (dir ∷ h.name ∷ [])) w w' ⊎ Kept h (t.join (dir ∷ h.name ∷ [])) w w'
  DoneAs other dir h w w' = w ≡ w'

  abbrev pub EntryDone : String → Header → W → W → Type 0
  EntryDone dir h = DoneAs h.type dir h

  -- The entries were read and dealt with one after another, up to the end of the archive.
  abbrev pub Extracted : String → List Header → W → W → Type 0
  Extracted dir [] w w' = t.next tar w ≡ (ok none, w')
  Extracted dir (h ∷ hs) w w' =
      (u : W) × (v : W) × (t.next tar w ≡ (ok (some h), u))
      × EntryDone dir h u v
      × Extracted dir hs v w'

  write_file-Written :
      (h : Header) (path : String) (f : ℕ) (w u v w' : W)
      → (t.stat path w).1 ≡ u
      → t.open_new path u ≡ (ok f, v)
      → write_file t tar h (some f) v ≡ (ok tt, w')
      → Written path w w'
  unfolding write_file
  write_file-Written h path f w u v w' looked created r =
      let copy =
        annotate "couldn't copy file '%s' to destination" (text h.name ∷ [])
          (t.copy (some f) tar) in
      let (a, x, h1, r1) = bind-ok copy _ v w' tt r in
      record {
        file = f;
        looked = u;
        created = v;
        copied = x;
        is_looked = looked;
        is_created = created;
        is_copied = annotate-ok _ _ (t.copy (some f) tar) v x tt h1;
        is_closed = annotate-ok _ _ (t.close (some f)) x w' tt r1;
      }

  -- With no file, nothing is written and the entry fails.
  pub write_file-none :
      CopyNeedsFile
      → (h : Header) (w : W) → (e : Error) × (u : W) × (write_file t tar h none w ≡ (err e, u))
  unfolding write_file
  write_file-none needs h w =
      let (e, u, p) = needs w in
      (wrapped "couldn't copy file '%s' to destination" (text h.name ∷ []) e, u, rw p refl)

  keep_or_write-same :
      CopyNeedsFile
      → (h : Header) (info : FileInfo) (w w' : W)
      → keep_or_write t tar h (some info) w ≡ (ok tt, w')
      → (info.size ≡ h.size) × (w ≡ w')
  unfolding keep_or_write
  keep_or_write-same needs h info w w' r = elim (Bool-cases (eqb info.size h.size)) [
    | inl p ↦ (ground (arith, p), ground (arith, p, r))
    | inr p ↦ let (e, u, q) = write_file-none needs h w in ground (arith, rw p at r, q)
  ]

  opened-done :
      CopyNeedsFile
      → (h : Header) (path : String) (info : Option FileInfo) (r : Result ℕ) (w u v w' : W)
      → (t.stat path w).1 ≡ u
      → ((i : FileInfo) → info ≡ some i → t.stat path w ≡ (ok i, u))
      → t.open_new path u ≡ (r, v)
      → opened t tar h path info r v ≡ (ok tt, w')
      → Written path w w' ⊎ Kept h path w w'
  unfolding opened keep_or_write
  opened-done needs h path info (ok f) w u v w' after looked created done =
      inl (write_file-Written h path f w u v w' after created done)
  opened-done needs h path none (err e) w u v w' after looked refused done =
      elim (Bool-cases (is_file_exist e)) [
        | inl p ↦ ground (arith, rw p at done)
        | inr p ↦ ground (arith, rw p at done)
      ]
  opened-done needs h path (some i) (err e) w u v w' after looked refused done =
      elim (Bool-cases (is_file_exist e)) [
        | inl p ↦
            let (size, same) = keep_or_write-same needs h i v w' (rw p at done) in
            inr (record {
              info = i;
              looked = u;
              error = e;
              is_found = looked i refl;
              refused = refused ∙ ap (λ x. (err e, x)) same;
              exists = p;
              same_size = size;
            })
        | inr p ↦ ground (arith, rw p at done)
      ]
  opened-done needs h path info (panic why) w u v w' after looked refused done =
      ground (arith, done)

  found_info-ok :
      (path : String) (s : Result FileInfo) (info : Option FileInfo) (u u' : W)
      → found_info t tar path s u ≡ (ok info, u')
      → (u ≡ u') × ((i : FileInfo) → info ≡ some i → s ≡ ok i)
  unfolding found_info
  found_info-ok path (ok i) info u u' h = (ground (arith, h), λ j e. ground (arith, h, e))
  found_info-ok path (err x) info u u' h = elim (Bool-cases (is_file_not_exist x)) [
    | inl p ↦ (ground (arith, rw p at h), λ j e. ground (arith, rw p at h, e))
    | inr p ↦ ground (arith, rw p at h)
  ]
  found_info-ok path (panic why) info u u' h = ground (arith, h)

  extract_file-done :
      CopyNeedsFile
      → (h : Header) (path : String) (w w' : W) → extract_file t tar h path w ≡ (ok tt, w')
      → Written path w w' ⊎ Kept h path w w'
  unfolding extract_file
  extract_file-done needs h path w w' done =
      let (s, w1, h1, r1) = bind-ok (attempt (t.stat path)) _ w w' tt done in
      let (info, w2, h2, r2) = bind-ok (found_info t tar path s) _ w1 w' tt r1 in
      let (o, w3, h3, r3) = bind-ok (attempt (t.open_new path)) _ w2 w' tt r2 in
      let (same, looked) = found_info-ok path s info w1 w2 h2 in
      let seen = attempt-ok (t.stat path) w w1 s h1 in
      opened-done needs h path info o w w2 w3 w' (ap (λ (x : Result FileInfo × W). x.1) seen ∙ same)
        (λ i e. seen ∙ ap (λ x. (x, w1)) (looked i e) ∙ ap (λ (x : W). (ok i, x)) same)
        (attempt-ok (t.open_new path) w2 w3 o h3) r3

  extract_entry-EntryDone :
      CopyNeedsFile
      → (dir : String) (h : Header) (w w' : W) → extract_entry t tar dir h w ≡ (ok tt, w')
      → EntryDone dir h w w'
  unfolding extract_entry
  extract_entry-EntryDone needs dir h w w' done = elim (EntryType-cases h.type) [
    | inl p ↦
        let path = t.join (dir ∷ h.name ∷ []) in
        subst (λ k. DoneAs k dir h w w') (sym p)
          (annotate-ok "couldn't create dir '%s'" (text path ∷ []) (t.mkdir_all path) w w' tt
            (rw (p, extract_entry) at done))
    | inr (inl p) ↦
        subst (λ k. DoneAs k dir h w w') (sym p)
          (extract_file-done needs h (t.join (dir ∷ h.name ∷ [])) w w'
            (simp (p, extract_entry) at done))
    | inr (inr p) ↦
        subst (λ k. DoneAs k dir h w w') (sym p) (ground (arith, rw (p, extract_entry) at done))
  ]

  -- Where a copy to no file is an error: if the extraction of an archive ends with no error, then
  -- its entries were read up to its end, and for each of them in turn a directory was made, a new
  -- file was created and written, a file of the same size was there already, or, where the entry is
  -- of another type, nothing was done.
  pub extract-Extracted :
      CopyNeedsFile
      → (fuel : ℕ) (dir : String) (w w' : W) → extract t tar fuel dir w ≡ some (ok tt, w')
      → (hs : List Header) × Extracted dir hs w w'
  unfolding extract
  extract-Extracted needs zero dir w w' done = ground (arith, done)
  extract-Extracted needs (suc fuel) dir w w' done = elim (Result-cases (t.next tar w).0) [
    | inl (none, q) ↦ ([], outcome w (ok none) q ∙ ground (arith, rw (q, extract) at done))
    | inl (some h, q) ↦
        let u = (t.next tar w).1 in
        elim (Result-cases (extract_entry t tar dir h u).0) [
          | inl (a, r) ↦
              let v = (extract_entry t tar dir h u).1 in
              let (hs, more) = extract-Extracted needs fuel dir v w' (rw (q, r, extract) at done) in
              let one : extract_entry t tar dir h u ≡ (ok tt, v) = ap (λ x. (x, v)) r in
              (
                h ∷ hs,
                (
                  u,
                  v,
                  outcome w (ok (some h)) q,
                  extract_entry-EntryDone needs dir h u v one,
                  more,
                ),
              )
          | inr (inl (e, r)) ↦ ground (arith, rw (q, r, extract) at done)
          | inr (inr (why, r)) ↦ ground (arith, rw (q, r, extract) at done)
        ]
    | inr (inl (e, q)) ↦ ground (arith, rw (q, extract) at done)
    | inr (inr (why, q)) ↦ ground (arith, rw (q, extract) at done)
  ]
    where
      outcome :
          (w : W) (s : Result (Option Header))
          → (t.next tar w).0 ≡ s
          → t.next tar w ≡ (s, (t.next tar w).1)
      outcome w s q = ap (λ x. (x, (t.next tar w).1)) q
