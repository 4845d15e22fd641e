-- ===== src/Managers/Tracker/Missing.antt =====
-- The removal of what is listed no more, which managers/status_app.go, managers/status_node.go and
-- cmd/cluster-status/main.go write in the same way: `Range` over the names that are tracked, where a
-- name that is not in `updatedMap` is removed.
use kube_bundler.Prelude.{
  ◌≡◌, ◌≢◌, refl, sym, ap, ◌∙◌, String, Bool, true, false, Option, none, some, List, [], ◌∷◌, map,
  ◌==◌, if◌then◌else◌, Memᴰ, inl, inr, arith, Bool-cases, String-discrete,
}
use mathlib.Core.List.Memᴰ
use kube_bundler.Prelude.Dict.{Dict, lookup}

module _ {S : Type 0} (remove : String → S → S) (listed : String → Bool) where
  unfoldable pub remove_unlisted : List String → S → S
  remove_unlisted [] s = s
  remove_unlisted (name ∷ names) s =
      remove_unlisted names (if listed name then s else remove name s)

abbrev pub is_some : {A : Type 0} → Option A → Bool
is_some none = false
is_some (some _) = true

pub keys_complete :
    {V : Type 0} (name : String) (m : Dict V)
    → is_some (lookup name m) ≡ true
    → Memᴰ name (map (λ (p : String × V). p.0) m)
unfolding lookup
keys_complete name [] h = ground (arith, h)
keys_complete name ((k, x) ∷ m) h = elim (String-discrete name k) [
  | yes p ↦ Memᴰ.head p
  | no n ↦ Memᴰ.tail (keys_complete name m (ground (arith, n, h)))
]

listed_not : {b : Bool} → b ≡ true → b ≢ false
listed_not p q = ground (arith, p, q)

-- Over a state that tracks names, where a removal ends the tracking of one name and of no other.
module _ {S : Type 0} (is_tracked : String → S → Bool) (remove : String → S → S)
    (gone : (name other : String) (s : S)
      → is_tracked name (remove other s) ≡ (if name == other then false else is_tracked name s))
    (listed : String → Bool) where
  -- A name that is listed stays, and of the names that are gone through the others go.
  pub remove_unlisted-is_tracked :
      (name : String) (names : List String) (s : S)
      → (listed name ≡ false → is_tracked name s ≡ true → Memᴰ name names)
      → is_tracked name (remove_unlisted remove listed names s)
        ≡ (if listed name then is_tracked name s else false)
  unfolding remove_unlisted
  remove_unlisted-is_tracked name [] s all = elim (Bool-cases (listed name)) [
    | inl p ↦ rw p refl
    | inr p ↦ elim (Bool-cases (is_tracked name s)) [
      | inl q ↦ absurd (Memᴰ.not-nil (all p q))
      | inr q ↦ rw p q
    ]
  ]
  remove_unlisted-is_tracked name (n ∷ names) s all = elim (Bool-cases (listed n)) [
    | inl p ↦
        let further : listed name ≡ false → is_tracked name s ≡ true → Memᴰ name names =
          λ unlisted t. elim (Memᴰ.cases_cons (all unlisted t)) [
            | inl q ↦ absurd (listed_not p (ap listed (sym q) ∙ unlisted))
            | inr m ↦ m
          ] in
        rw (p, remove_unlisted) (remove_unlisted-is_tracked name names s further)
    | inr p ↦
        let further : listed name ≡ false → is_tracked name (remove n s) ≡ true → Memᴰ name names =
          λ unlisted t. elim (String-discrete name n) [
            | yes q ↦ ground (arith, q, gone name n s, t)
            | no other ↦
                elim (Memᴰ.cases_cons (all unlisted (ground (arith, other, gone name n s, t)))) [
                  | inl q ↦ absurd (other q)
                  | inr m ↦ m
                ]
          ] in
        let rest = remove_unlisted-is_tracked name names (remove n s) further in
        elim (String-discrete name n) [
          | yes q ↦
              let unlisted : listed name ≡ false = ap listed q ∙ p in
              rw (p, remove_unlisted) (rw unlisted (rw unlisted at rest))
          | no other ↦
              let same : is_tracked name (remove n s) ≡ is_tracked name s =
                ground (arith, other, gone name n s) in
              rw (p, remove_unlisted) (rw same at rest)
        ]
  ]

-- What is kept by a removal is kept by all of them.
module _ {S : Type 0} (remove : String → S → S) (P : S → Type 0)
    (kept : (name : String) (s : S) → P s → P (remove name s)) (listed : String → Bool) where
  pub remove_unlisted_keeps :
      (names : List String) (s : S) → P s → P (remove_unlisted remove listed names s)
  unfolding remove_unlisted
  remove_unlisted_keeps [] s p = p
  remove_unlisted_keeps (n ∷ names) s p = elim (Bool-cases (listed n)) [
    | inl q ↦ rw (q, remove_unlisted) (remove_unlisted_keeps names s p)
    | inr q ↦ rw (q, remove_unlisted) (remove_unlisted_keeps names (remove n s) (kept n s p))
  ]
