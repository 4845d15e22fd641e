-- ===== src/Managers/Extract/Total.antt =====
-- The extraction of an archive ends.
use kube_bundler.Prelude.{
  ◌≡◌, refl, ap, ℕ, zero, suc, ◌≤◌, ◌<◌, String, Option, none, some, [], ◌∷◌, arith, inl, inr, eqb,
  Bool-cases,
}
use kube_bundler.Go.Errors.{text, is_file_not_exist, is_file_exist, wrapped}
use kube_bundler.Go.Io.{
  Io, Result, ok, err, panic, annotate, attempt, continue, Result-cases, ◌>>=◌,
}
use kube_bundler.Go.Run.{Returns}
use kube_bundler.Managers.Extract.Laws.{EntryType-cases}
use kube_bundler.Managers.Extract.{
  Header, FileInfo, TarTools, found_info, write_file, keep_or_write, opened, extract_file,
  extract_entry, extract,
}

module _ {W : Type 0} (left : W → ℕ) where
  -- The call adds no entries to the archive.
  abbrev pub AddsNone : {A : Type 0} → Io W A → Type 0
  AddsNone m = (w : W) → left (m w).1 ≤ left w

  AddsNone-bind :
      {A B : Type 0} (m : Io W A) (f : A → Io W B)
      → AddsNone m
      → ((a : A) → AddsNone (f a))
      → AddsNone (m >>= f)
  AddsNone-bind m f h k w = elim (Result-cases (m w).0) [
    | inl (a, q) ↦ rw (q, continue) (omega (arith, h w, k a (m w).1))
    | inr (inl (e, q)) ↦ rw (q, continue) (h w)
    | inr (inr (why, q)) ↦ rw (q, continue) (h w)
  ]

  AddsNone-attempt : {A : Type 0} (m : Io W A) → AddsNone m → AddsNone (attempt m)
  AddsNone-attempt m h w = elim (Result-cases (m w).0) [
    | inl (a, q) ↦ rw (attempt, q) (h w)
    | inr (inl (e, q)) ↦ rw (attempt, q) (h w)
    | inr (inr (why, q)) ↦ rw (attempt, q) (h w)
  ]

  module _ (t : TarTools W) (tar : ℕ) where
    -- An archive has as many entries as `left` says: to read one leaves fewer, and no call on other
    -- files adds any.
    pub record IsFinite : Type 0 where
      pub reads : (w u : W) (h : Header) → t.next tar w ≡ (ok (some h), u) → left u < left w
      pub makes : (path : String) → AddsNone (t.mkdir_all path)
      pub looks : (path : String) → AddsNone (t.stat path)
      pub creates : (path : String) → AddsNone (t.open_new path)
      pub copies : (out : Option ℕ) → AddsNone (t.copy out tar)
      pub closes : (out : Option ℕ) → AddsNone (t.close out)

    module _ (F : IsFinite) where
      write_file-AddsNone : (h : Header) (out : Option ℕ) → AddsNone (write_file t tar h out)
      unfolding write_file
      write_file-AddsNone h out =
          AddsNone-bind
            (annotate "couldn't copy file '%s' to destination" (text h.name ∷ []) (t.copy out tar))
            _ (F.copies out) (λ a. F.closes out)

      keep_or_write-AddsNone :
          (h : Header) (info : Option FileInfo) → AddsNone (keep_or_write t tar h info)
      unfolding keep_or_write
      keep_or_write-AddsNone h none w = omega arith
      keep_or_write-AddsNone h (some info) w = elim (Bool-cases (eqb info.size h.size)) [
        | inl p ↦ elim (Bool-cases (eqb info.mod_time h.mod_time)) [
          | inl q ↦ rw (p, q) (omega arith)
          | inr q ↦ rw (p, q) (omega arith)
        ]
        | inr p ↦ rw p (write_file-AddsNone h none w)
      ]

      opened-AddsNone :
          (h : Header) (path : String) (info : Option FileInfo) (r : Result ℕ)
          → AddsNone (opened t tar h path info r)
      unfolding opened
      opened-AddsNone h path info (ok f) w = write_file-AddsNone h (some f) w
      opened-AddsNone h path info (err e) w = elim (Bool-cases (is_file_exist e)) [
        | inl p ↦ rw p (keep_or_write-AddsNone h info w)
        | inr p ↦ rw p (omega arith)
      ]
      opened-AddsNone h path info (panic why) w = omega arith

      found_info-AddsNone :
          (path : String) (s : Result FileInfo) → AddsNone (found_info t tar path s)
      unfolding found_info
      found_info-AddsNone path (ok i) w = omega arith
      found_info-AddsNone path (err e) w = elim (Bool-cases (is_file_not_exist e)) [
        | inl p ↦ rw p (omega arith)
        | inr p ↦ rw p (omega arith)
      ]
      found_info-AddsNone path (panic why) w = omega arith

      extract_file-AddsNone : (h : Header) (path : String) → AddsNone (extract_file t tar h path)
      unfolding extract_file
      extract_file-AddsNone h path =
          AddsNone-bind (attempt (t.stat path)) _ (AddsNone-attempt (t.stat path) (F.looks path))
            (λ s. AddsNone-bind (found_info t tar path s) _ (found_info-AddsNone path s) (λ info.
              AddsNone-bind (attempt (t.open_new path)) _
                (AddsNone-attempt (t.open_new path) (F.creates path))
                (λ o. opened-AddsNone h path info o)))

      extract_entry-AddsNone : (dir : String) (h : Header) → AddsNone (extract_entry t tar dir h)
      unfolding extract_entry
      extract_entry-AddsNone dir h w = elim (EntryType-cases h.type) [
        | inl p ↦ rw (p, extract_entry) (F.makes (t.join (dir ∷ h.name ∷ [])) w)
        | inr (inl p) ↦
            simp (p, extract_entry) (extract_file-AddsNone h (t.join (dir ∷ h.name ∷ [])) w)
        | inr (inr p) ↦ rw (p, extract_entry) (omega arith)
      ]

      -- If the archive is finite, the extraction of it ends with as much fuel as it has entries and one more.
      pub extract-total :
          (fuel : ℕ) (dir : String) (w : W) → left w < fuel → Returns (extract t tar fuel dir w)
      unfolding extract
      extract-total zero dir w h = elim h [ ]
      extract-total (suc fuel) dir w h = elim (Result-cases (t.next tar w).0) [
        | inl (none, q) ↦ ((ok tt, (t.next tar w).1), rw (q, extract) refl)
        | inl (some e, q) ↦
            let u = (t.next tar w).1 in
            let fewer = F.reads w u e (outcome w (ok (some e)) q) in
            let kept = extract_entry-AddsNone dir e u in
            elim (Result-cases (extract_entry t tar dir e u).0) [
              | inl (a, r) ↦
                  let (x, p) =
                    extract-total fuel dir (extract_entry t tar dir e u).1 (omega arith) in
                  (x, rw (q, r, extract) p)
              | inr (inl (x, r)) ↦
                  ((err x, (extract_entry t tar dir e u).1), rw (q, r, extract) refl)
              | inr (inr (why, r)) ↦
                  ((panic why, (extract_entry t tar dir e u).1), rw (q, r, extract) refl)
            ]
        | inr (inl (e, q)) ↦
            ((err (wrapped "couldn't extract tar" [] e), (t.next tar w).1), rw (q, extract) refl)
        | inr (inr (why, q)) ↦ ((panic why, (t.next tar w).1), rw (q, extract) refl)
      ]
        where
          outcome :
              (w : W) (s : Result (Option Header))
              → (t.next tar w).0 ≡ s
              → t.next tar w ≡ (s, (t.next tar w).1)
          outcome w s q = ap (λ x. (x, (t.next tar w).1)) q
