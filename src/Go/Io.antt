-- ===== src/Go/Io.antt =====
-- Code with effects: a function of the world outside the program. What was done before an error
-- stays done, so the world comes back beside the error too. A panic ends the program.
use kube_bundler.Prelude.{ap}
use kube_bundler.Prelude.{refl, String, Option, none, some, List, ◌≡◌, ◌⊎◌, inl, inr, arith, ◌∙◌}
use kube_bundler.Go.Errors.{Arg, Error, wrapped}

pub data Result {ℓ} (A : Type ℓ) : Type ℓ where
  ok : A → Result A
  err : Error → Result A
  panic : String → Result A

abbrev pub Io : Type 0 → Type 0 → Type 0
Io W A = W → Result A × W

abbrev pub map_error {ℓ} : {A : Type ℓ} → (Error → Error) → Result A → Result A
map_error f (ok a) = ok a
map_error f (err e) = err (f e)
map_error f (panic why) = panic why

module _ {W A : Type 0} where
  abbrev pub pure : A → Io W A
  pure a w = (ok a, w)

  abbrev pub fail : Error → Io W A
  fail e w = (err e, w)

  abbrev pub crash : String → Io W A
  crash why w = (panic why, w)

  -- `if err != nil { return errors.Wrapf(err, format, args) }` behind a call
  abbrev pub annotate : String → List Arg → Io W A → Io W A
  annotate format args m w = let (r, w') = m w in (map_error (wrapped format args) r, w')

  -- A result that was computed with no effect.
  abbrev pub lift : Result A → Io W A
  lift r w = (r, w)

module _ {W A B : Type 0} where
  abbrev pub continue : (A → Io W B) → Result A → Io W B
  continue f (ok a) w = f a w
  continue f (err e) w = (err e, w)
  continue f (panic why) w = (panic why, w)

  infixl 10 ◌>>=◌
  abbrev pub ◌>>=◌ : Io W A → (A → Io W B) → Io W B
  ◌>>=◌ m f w = let (r, w') = m w in continue f r w'

module _ {W B : Type 0} where
  infixl 10 ◌>>◌
  abbrev pub ◌>>◌ : Io W (Unit {0}) → Io W B → Io W B
  m >> k = m >>= λ _. k

-- The returned `error` of a call whose caller goes on.
abbrev pub error_of {ℓ} : {A : Type ℓ} → Result A → Option Error
error_of (ok _) = none
error_of (err e) = some e
error_of (panic _) = none

module _ {W A : Type 0} where
  -- `if v, err := f(); err != nil { handle(err) } else { … }`: the caller sees the error itself.
  abbrev pub attempt : Io W A → Io W (Result A)
  attempt m w = let (r, w') = m w in settle r w'
    where
      settle : Result A → W → Result (Result A) × W
      settle (ok a) w = (ok (ok a), w)
      settle (err e) w = (ok (err e), w)
      settle (panic why) w = (panic why, w)

-- `defer d()` before the call of `m`, where an error of `d` is not returned.
abbrev pub finally : {W A : Type 0} → Io W (Unit {0}) → Io W A → Io W A
finally d m w = let (r, w') = m w in (r, (d w').1)

-- `P` holds after `m` wherever it held before, whether `m` returns, fails or panics.
abbrev pub Keeps : {W A : Type 0} → (W → Type 0) → Io W A → Type 0
Keeps {W} P m = (w : W) → P w → P (m w).1

pub Result-cases {ℓ} :
    {A : Type ℓ} (r : Result A)
    → ((a : A) × (r ≡ ok a)) ⊎ ((e : Error) × (r ≡ err e)) ⊎ ((why : String) × (r ≡ panic why))
Result-cases (ok a) = inl (a, refl)
Result-cases (err e) = inr (inl (e, refl))
Result-cases (panic why) = inr (inr (why, refl))

module _ {W A B : Type 0} where
  -- What the first call gave, and what the rest makes of it.
  pub bind-ok :
      (m : Io W A) (f : A → Io W B) (w w' : W) (b : B)
      → (m >>= f) w ≡ (ok b, w')
      → (a : A) × (u : W) × (m w ≡ (ok a, u)) × (f a u ≡ (ok b, w'))
  bind-ok m f w w' b h = elim (Result-cases (m w).0) [
    | inl (a, q) ↦ (a, (m w).1, rw q refl, rw (continue, q) at h)
    | inr (inl (x, q)) ↦ ground (arith, rw (continue, q) at h)
    | inr (inr (why, q)) ↦ ground (arith, rw (continue, q) at h)
  ]

module _ {W A : Type 0} where
  pub annotate-ok :
      (format : String) (args : List Arg) (m : Io W A) (w w' : W) (a : A)
      → annotate format args m w ≡ (ok a, w')
      → m w ≡ (ok a, w')
  annotate-ok format args m w w' a h = elim (Result-cases (m w).0) [
    | inl (b, q) ↦
        let same : m w ≡ (ok b, (m w).1) = rw q refl in same ∙ (rw (annotate, map_error, q) at h)
    | inr (inl (x, q)) ↦ ground (arith, rw (annotate, map_error, q) at h)
    | inr (inr (why, q)) ↦ ground (arith, rw (annotate, map_error, q) at h)
  ]

  -- The same of a result that was computed with no effect.
  pub annotate-lift-ok :
      (format : String) (args : List Arg) (r : Result A) (w w' : W) (a : A)
      → annotate format args (lift r) w ≡ (ok a, w')
      → (r ≡ ok a) × (w ≡ w')
  annotate-lift-ok format args r w w' a h =
      let e : lift r w ≡ (ok a, w') = annotate-ok format args (lift r) w w' a h in
      (ground (arith, e), ground (arith, e))

  -- What the caller sees is what the call gave.
  pub attempt-ok : (m : Io W A) (w u : W) (r : Result A) → attempt m w ≡ (ok r, u) → m w ≡ (r, u)
  attempt-ok m w u r h = elim (Result-cases (m w).0) [
    | inl (b, q) ↦ outcome m w (ok b) q ∙ ground (arith, rw (attempt, q) at h)
    | inr (inl (x, q)) ↦ outcome m w (err x) q ∙ ground (arith, rw (attempt, q) at h)
    | inr (inr (why, q)) ↦ ground (arith, rw (attempt, q) at h)
  ]
    where
      outcome : (m : Io W A) (w : W) (s : Result A) → (m w).0 ≡ s → m w ≡ (s, (m w).1)
      outcome m w s q = ap (λ x. (x, (m w).1)) q
