-- ===== src/Managers/Source/Laws.antt =====
-- Which source a bundle comes from.
use kube_bundler.Prelude.{
  String, ◌≡◌, refl, ap, true, false, List, [], ◌∷◌, ◌++◌, ◌≢◌, arith, inl, inr, Bool-cases, ==_iff,
  ◌==◌,
}
use kube_bundler.Go.Errors.{text, Error, Arg, is_err_not_found}
use kube_bundler.Go.Io.{Result, ok, err, panic, Io, pure, annotate, ◌>>=◌, Result-cases}
use kube_bundler.Managers.Source.{
  application, Source, BundleRef, BundleFile, Files, DirectorySource, latest, err_not_found,
  multi_get, directory_get, new_bundle_from_file,
}

-- No error of the code is the bare error of a bundle that is not found.
abbrev pub Wrapped : {W A : Type 0} → Io W A → Type 0
Wrapped {W} m = (w : W) (e : Error) → (m w).0 ≡ err e → is_err_not_found e ≡ false

pure-Wrapped : {W A : Type 0} (a : A) → Wrapped {W = W} (pure a)
pure-Wrapped a w e h = ground arith

annotate-Wrapped :
    {W A : Type 0} (format : String) (args : List Arg) (m : Io W A)
    → Wrapped (annotate format args m)
unfolding is_err_not_found
annotate-Wrapped format args m w e h = elim (Result-cases (m w).0) [
  | inl (a, p) ↦ ground (arith, rw p at h)
  | inr (inl (x, p)) ↦ ground (arith, rw p at h)
  | inr (inr (why, p)) ↦ ground (arith, rw p at h)
]

>>=-Wrapped :
    {W A B : Type 0} (m : Io W A) (k : A → Io W B)
    → Wrapped m
    → ((a : A) → Wrapped (k a))
    → Wrapped (m >>= k)
>>=-Wrapped m k first rest w e h = elim (Result-cases (m w).0) [
  | inl (a, p) ↦ rest a (m w).1 e (rw p at h)
  | inr (inl (x, p)) ↦
      let same : x ≡ e = ground (arith, rw p at h) in first w e (rw p (ap err same))
  | inr (inr (why, p)) ↦ ground (arith, rw p at h)
]

-- An answer other than that the bundle is not there.
abbrev pub IsAnswer : Result BundleFile → Type 0
IsAnswer (ok _) = Unit
IsAnswer (panic _) = Unit
IsAnswer (err e) = is_err_not_found e ≡ false

module _ {W : Type 0} (ref : BundleRef) where
  -- Each of the sources in turn answers that it does not have the bundle.
  pub data Lacking : List (Source W) → W → W → Type 0 where
    none_asked : (w : W) → Lacking [] w w
    lacks :
        (s : Source W) {sources : List (Source W)} (w w' : W) {u : W} (e : Error)
        → s.get ref w ≡ (err e, w')
        → is_err_not_found e ≡ true
        → Lacking sources w' u
        → Lacking (s ∷ sources) w u

  pub multi_get-Lacking :
      (before after : List (Source W)) (w u : W)
      → Lacking before w u
      → multi_get (before ++ after) ref w ≡ multi_get after ref u
  unfolding multi_get
  multi_get-Lacking [] after w u (none_asked _) = refl
  multi_get-Lacking (s ∷ before) after w u (lacks _ _ w' e p q more) =
      rw (p, q, p) (multi_get-Lacking before after w' u more)

  multi_get-answers :
      (after : List (Source W)) (s : Source W) (u v : W) (r : Result BundleFile)
      → s.get ref u ≡ (r, v)
      → IsAnswer r
      → multi_get (s ∷ after) ref u ≡ (r, v)
  unfolding multi_get
  multi_get-answers after s u v (ok b) p answer = rw (p, p) refl
  multi_get-answers after s u v (err e) p answer = rw (p, answer, p) refl
  multi_get-answers after s u v (panic why) p answer = rw (p, p) refl

  -- The first source that does not lack the bundle decides: where the sources before it all answer
  -- that the bundle is not found, its answer is the answer of the whole list, an error included, and
  -- the sources after it are not asked.
  multi_get-first :
      (before after : List (Source W)) (s : Source W) (w u v : W) (r : Result BundleFile)
      → Lacking before w u
      → s.get ref u ≡ (r, v)
      → IsAnswer r
      → multi_get (before ++ (s ∷ after)) ref w ≡ (r, v)
  multi_get-first before after s w u v r lacking p answer =
      rw (multi_get-Lacking before (s ∷ after) w u lacking)
        (multi_get-answers after s u v r p answer)

  -- Where every source answers that the bundle is not found, so does the whole list.
  pub multi_get-none :
      (sources : List (Source W)) (w u : W)
      → Lacking sources w u
      → multi_get sources ref w ≡ (err err_not_found, u)
  unfolding multi_get
  multi_get-none [] w u (none_asked _) = refl
  multi_get-none (s ∷ before) w u (lacks _ _ w' e p q more) =
      rw (p, q, p) (multi_get-none before w' u more)

module _ {W : Type 0} (files : Files W) where
  new_bundle_from_file-Wrapped : (path : String) → Wrapped (new_bundle_from_file files path)
  unfolding new_bundle_from_file
  new_bundle_from_file-Wrapped path =
      let none_yet : BundleRef = record { name = ""; version = "" } in
      >>=-Wrapped (annotate "couldn't stat bundle '%s'" (text path ∷ []) (files.stat path)) _
        (annotate-Wrapped _ _ (files.stat path))
        (λ size.
          >>=-Wrapped (annotate "couldn't open bundle '%s'" (text path ∷ []) (files.open_file path))
            _ (annotate-Wrapped _ _ (files.open_file path))
            (λ f.
              >>=-Wrapped
                (annotate "couldn't open bundle application definition" [] (
                  application files (record { ref = none_yet; contents = f; size = size })
                    "default"))
                _
                (annotate-Wrapped _ _ (
                  application files (record { ref = none_yet; contents = f; size = size })
                    "default"))
                (λ app. pure-Wrapped (record {
                  ref = record { name = app.spec.name; version = app.spec.version };
                  contents = f;
                  size = size;
                }))))

  -- Asked for a fixed version, a directory never answers that the bundle is not found: a missing
  -- file is another error.
  directory_get-fixed :
      (ds : DirectorySource) (ref : BundleRef) (w : W) (e : Error)
      → ref.version ≢ latest
      → (directory_get files ds ref w).0 ≡ err e
      → is_err_not_found e ≡ false
  unfolding directory_get
  directory_get-fixed ds ref w e fixed h = elim (Bool-cases (ref.version == latest)) [
    | inl p ↦ absurd (fixed ((==_iff ref.version latest).0 p))
    | inr p ↦ new_bundle_from_file-Wrapped _ w e (rw p at h)
  ]
