-- ===== src/Managers/Tracker/Checks.antt =====
-- Which checks are left when one of them ends or is cancelled.
use kube_bundler.Prelude.{
  ℕ, ◌≡◌, ◌≢◌, refl, String, false, ◌&&◌, List, [], ◌∷◌, eqb, ◌==◌, Memᴰ, inl, inr, arith,
  Bool-cases,
}
use mathlib.Core.List.Memᴰ
use mathlib.Core.Path.{subst}
use kube_bundler.Managers.Tracker.{Check, AppContext, cancel, without}

abbrev pub running : AppContext → String → Check
running x name = record { id = x.check; name = name; cancelled = false }

pub without-of : (g x : Check) (xs : List Check) → Memᴰ x (without g xs) → Memᴰ x xs
unfolding without
without-of g x [] m = m
without-of g x (y ∷ ys) m = elim (Bool-cases (y.cancelled && eqb y.id g.id && y.name == g.name)) [
  | inl p ↦ Memᴰ.tail (without-of g x ys (rw p at m))
  | inr p ↦ elim (Memᴰ.cases_cons (rw p at m)) [
    | inl q ↦ Memᴰ.head q
    | inr m' ↦ Memᴰ.tail (without-of g x ys m')
  ]
]

pub without-keeps :
    (g x : Check) (xs : List Check)
    → (x.cancelled && eqb x.id g.id && x.name == g.name) ≡ false
    → Memᴰ x xs
    → Memᴰ x (without g xs)
unfolding without
without-keeps g x [] keep m = absurd (Memᴰ.not-nil m)
without-keeps g x (y ∷ ys) keep (Memᴰ.head p) =
    let keep' = subst (λ z. (z.cancelled && eqb z.id g.id && z.name == g.name) ≡ false) p keep in
    rw keep' (Memᴰ.head p)
without-keeps g x (y ∷ ys) keep (Memᴰ.tail m) =
    elim (Bool-cases (y.cancelled && eqb y.id g.id && y.name == g.name)) [
      | inl p ↦ rw p (without-keeps g x ys keep m)
      | inr p ↦ rw p (Memᴰ.tail (without-keeps g x ys keep m))
    ]

pub cancel-name : (id : ℕ) (name : String) (g : Check) → (cancel id name g).name ≡ g.name
cancel-name id name g = elim (Bool-cases (eqb g.id id && g.name == name)) [
  | inl p ↦ rw p refl
  | inr p ↦ rw p refl
]

pub cancel_other :
    (id : ℕ) (name : String) (x : AppContext) (n : String)
    → n ≢ name
    → cancel id name (running x n) ≡ running x n
cancel_other id name x n other = elim (Bool-cases (eqb x.check id && n == name)) [
  | inl p ↦ absurd (other (ground (arith, p)))
  | inr p ↦ rw p refl
]

-- A check that is not cancelled afterwards was not, and is not the one that is cancelled.
pub cancel-live :
    (id : ℕ) (name : String) (g h : Check)
    → cancel id name g ≡ h
    → h.cancelled ≡ false
    → (g ≡ h) × ((eqb g.id id && g.name == name) ≡ false)
cancel-live id name g h q live = elim (Bool-cases (eqb g.id id && g.name == name)) [
  | inl p ↦ ground (arith, rw p at q, live)
  | inr p ↦ (rw p at q, p)
]
