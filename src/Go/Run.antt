-- ===== src/Go/Run.antt =====
-- Code that polls until the cluster answers. Each loop is given fuel, and `none` means that it ran
-- out.
use kube_bundler.Prelude.{
  refl, String, Option, none, some, List, ◌≡◌, inl, inr, Option-cases, arith,
}
use kube_bundler.Go.Errors.{Arg, Error, wrapped}
use kube_bundler.Go.Io.{Io, Result, ok, err, panic, map_error, Result-cases}
use kube_bundler.Prelude.{◌∙◌}

abbrev pub Run : Type 0 → Type 0 → Type 0
Run W A = W → Option (Result A × W)

-- The fuel was enough.
abbrev pub Returns {ℓ} : {R : Type ℓ} → Option R → Type ℓ
Returns {R} o = (r : R) × (o ≡ some r)

module _ {W A : Type 0} where
  -- Code that has no such loop.
  abbrev pub once : Io W A → Run W A
  once m w = some (m w)

  -- `if err != nil { return errors.Wrapf(err, format, args) }` behind a call
  abbrev pub explain : (Error → Error) → Option (Result A × W) → Option (Result A × W)
  explain f none = none
  explain f (some (r, w)) = some (map_error f r, w)

  abbrev pub annotate : String → List Arg → Run W A → Run W A
  annotate format args m w = explain (wrapped format args) (m w)

  -- The call ends with no error and this value, in this world.
  abbrev pub Gives : Run W A → W → A → W → Type 0
  Gives m w a w' = m w ≡ some (ok a, w')

  settle : Option (Result A × W) → Option (Result (Result A) × W)
  settle none = none
  settle (some (ok a, w)) = some (ok (ok a), w)
  settle (some (err e, w)) = some (ok (err e), w)
  settle (some (panic why, w)) = some (panic why, w)

  -- The caller goes on after an error.
  unfoldable pub attempt : Run W A → Run W (Result A)
  unfolding settle
  attempt m w = settle (m w)

  pub annotate-total :
      (format : String) (args : List Arg) (m : Run W A) (w : W)
      → Returns (m w)
      → Returns (annotate format args m w)
  annotate-total format args m w ((r, u), p) =
      ((map_error (wrapped format args) r, u), rw (p, explain) refl)

  settle-total : (r : Result A) (w : W) → Returns (settle (some (r, w)))
  unfolding settle
  settle-total (ok a) w = ((ok (ok a), w), refl)
  settle-total (err e) w = ((ok (err e), w), refl)
  settle-total (panic why) w = ((panic why, w), refl)

  pub attempt-total : (m : Run W A) (w : W) → Returns (m w) → Returns (attempt m w)
  unfolding attempt
  attempt-total m w ((r, u), p) = let (x, q) = settle-total r u in (x, rw p q)

  given : (m : Run W A) (w : W) (a : A) (w' : W) → Gives m w a w' → m w ≡ some (ok a, w')
  given m w a w' h = h

  pub annotate-ok :
      (format : String) (args : List Arg) (m : Run W A) (w w' : W) (a : A)
      → Gives (annotate format args m) w a w'
      → Gives m w a w'
  annotate-ok format args m w w' a h = elim (Option-cases (m w)) [
    | inl p ↦ ground (arith, rw (p, explain) at h)
    | inr (r, p) ↦ elim (Result-cases r.0) [
      | inl (b, q) ↦ given m w b r.1 (rw (p, q) refl) ∙ (rw (p, explain, q) at h)
      | inr (inl (x, q)) ↦ ground (arith, rw (p, explain, q) at h)
      | inr (inr (why, q)) ↦ ground (arith, rw (p, explain, q) at h)
    ]
  ]

module _ {W A B : Type 0} where
  abbrev pub proceed : (A → Run W B) → Option (Result A × W) → Option (Result B × W)
  proceed f none = none
  proceed f (some (ok a, w)) = f a w
  proceed f (some (err e, w)) = some (err e, w)
  proceed f (some (panic why, w)) = some (panic why, w)

  infixl 10 ◌>>=◌
  abbrev pub ◌>>=◌ : Run W A → (A → Run W B) → Run W B
  ◌>>=◌ m f w = proceed f (m w)

  -- What the first call gave, and what the rest makes of it.
  pub >>=-ok :
      (m : Run W A) (f : A → Run W B) (w w' : W) (b : B)
      → Gives (m >>= f) w b w'
      → (a : A) × (u : W) × Gives m w a u × Gives (f a) u b w'
  >>=-ok m f w w' b h = elim (Option-cases (m w)) [
    | inl p ↦ ground (arith, rw (p, proceed) at h)
    | inr (r, p) ↦ elim (Result-cases r.0) [
      | inl (a, q) ↦ (a, r.1, rw (p, q) refl, rw (p, proceed, q) at h)
      | inr (inl (x, q)) ↦ ground (arith, rw (p, proceed, q) at h)
      | inr (inr (why, q)) ↦ ground (arith, rw (p, proceed, q) at h)
    ]
  ]

  pub >>=-total :
      (m : Run W A) (f : A → Run W B) (w : W)
      → Returns (m w)
      → ((a : A) (u : W) → Returns (f a u))
      → Returns ((m >>= f) w)
  >>=-total m f w ((ok a, u), p) h = let (r, q) = h a u in (r, rw (p, proceed) q)
  >>=-total m f w ((err e, u), p) h = ((err e, u), rw (p, proceed) refl)
  >>=-total m f w ((panic why, u), p) h = ((panic why, u), rw (p, proceed) refl)

module _ {W B : Type 0} where
  infixl 10 ◌>>◌
  abbrev pub ◌>>◌ : Run W (Unit {0}) → Run W B → Run W B
  m >> k = m >>= λ _. k
