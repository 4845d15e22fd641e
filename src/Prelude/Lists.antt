-- ===== src/Prelude/Lists.antt =====
-- Lists: lengths over the native numbers, and predicates by recursion.
use Prim.Native.Nat.{ℕ, suc, ◌+◌}
use mathlib.Core.Path.{◌≡◌, refl, sym, subst}
use mathlib.Core.Logic.{◌⊎◌, inl, inr}
use mathlib.Core.List.Memᴰ
use mathlib.Core.Bool.{Bool, true, false}
use mathlib.Core.Option.{Option, none, some}
use mathlib.Core.List.{List, [], ◌∷◌, ◌++◌, Memᴰ}
use native.Mathlib.Omega.{arith}

module _ {ℓ} {A : Type ℓ} where
  abbrev pub length : List A → ℕ
  length [] = 0
  length (x ∷ xs) = suc (length xs)

  pub length-append : (xs ys : List A) → length (xs ++ ys) ≡ length xs + length ys
  length-append [] ys = omega arith
  length-append (x ∷ xs) ys = omega (arith, length-append xs ys)

  abbrev pub get_last? : List A → Option A
  get_last? [] = none
  get_last? (x ∷ xs) = elim (get_last? xs) [ none ↦ some x | some y ↦ some y ]

  -- `xs` up to the first element that fails the test.
  unfoldable pub take_while : (A → Bool) → List A → List A
  take_while p [] = []
  take_while p (x ∷ xs) = let rest = take_while p xs in elim (p x) [ true ↦ x ∷ rest | false ↦ [] ]

abbrev pub All {ℓ κ} : {A : Type ℓ} → (A → Type κ) → List A → Type κ
All P [] = Unit
All P (x ∷ xs) = P x × All P xs

module _ {ℓ} {A : Type ℓ} where
  abbrev pub flatten : List (List A) → List A
  flatten [] = []
  flatten (xs ∷ rest) = xs ++ flatten rest

  -- `ys` under the elements of `xs`, the last of them on top.
  abbrev pub push : List A → List A → List A
  push [] ys = ys
  push (x ∷ xs) ys = push xs (x ∷ ys)

  pub Memᴰ-push : (xs ys : List A) (a : A) → Memᴰ a ys → Memᴰ a (push xs ys)
  Memᴰ-push [] ys a h = h
  Memᴰ-push (x ∷ xs) ys a h = Memᴰ-push xs (x ∷ ys) a (Memᴰ.tail h)

  pub append-push :
      (xs ys zs : List A)
      → ((a : A) → Memᴰ a ys → Memᴰ a zs)
      → (a : A) → Memᴰ a (xs ++ ys)
      → Memᴰ a (push xs zs)
  append-push [] ys zs sub a h = sub a h
  append-push (x ∷ xs) ys zs sub a (Memᴰ.head p) = Memᴰ-push xs (x ∷ zs) a (Memᴰ.head p)
  append-push (x ∷ xs) ys zs sub a (Memᴰ.tail h) =
      append-push xs ys (x ∷ zs) (λ b k. Memᴰ.tail (sub b k)) a h

pub All-map {ℓ κ} :
    {A : Type ℓ} {P Q : A → Type κ} → ((a : A) → P a → Q a) → (xs : List A) → All P xs → All Q xs
All-map f [] h = tt
All-map f (x ∷ xs) h = (f x h.0, All-map f xs h.1)

pub List-cases {ℓ} :
    {A : Type ℓ} (xs : List A) → (xs ≡ []) ⊎ ((y : A) × (ys : List A) × (xs ≡ y ∷ ys))
List-cases [] = inl refl
List-cases (y ∷ ys) = inr (y, ys, refl)

-- What holds of all holds of each.
pub All-at {ℓ κ} :
    {A : Type ℓ} (P : A → Type κ) (xs : List A) → All P xs → (x : A) → Memᴰ x xs → P x
All-at P [] h x m = absurd (Memᴰ.not-nil m)
All-at P (y ∷ ys) h x m = elim (Memᴰ.cases_cons m) [
  | inl p ↦ subst P (sym p) h.0
  | inr m' ↦ All-at P ys h.1 x m'
]
