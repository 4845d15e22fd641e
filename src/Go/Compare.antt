-- ===== src/Go/Compare.antt =====
-- `strings.Compare`. The order of the bytes of UTF-8 is that of the code points.
use kube_bundler.Prelude.{suc}
use Prim.Native.Char.{code}
use kube_bundler.Prelude.{
  ◌≡◌, ◌↔◌, refl, ap, ◌∙◌, ℕ, String, true, false, eqb, ltb, if◌then◌else◌, Bool-cases, inl, inr,
  arith,
}
use kube_bundler.Prelude.Int.{ℤ, eqb_ℤ, ltb_ℤ}
use text.Mathlib.TextEquality.{Char-path}

unfoldable pub compare : String → String → ℤ
compare String.[] String.[] = ℤ.pos 0
compare String.[] (String.◌∷◌ d u) = ℤ.negsuc 0
compare (String.◌∷◌ c s) String.[] = ℤ.pos 1
compare (String.◌∷◌ c s) (String.◌∷◌ d u) =
    let rest = compare s u in
    if eqb (code c) (code d) then rest else if ltb (code c) (code d) then ℤ.negsuc 0 else ℤ.pos 1

-- The first text comes before the second.
abbrev pub IsBefore : String → String → Type 0
IsBefore a b = ltb_ℤ (compare a b) (ℤ.pos 0) ≡ true

abbrev head_code : String → ℕ
head_code String.[] = 0
head_code (String.◌∷◌ c s) = suc (code c)

abbrev tail_of : String → String
tail_of String.[] = String.[]
tail_of (String.◌∷◌ c s) = s

pub compare-zero_iff : (a b : String) → (eqb_ℤ (compare a b) (ℤ.pos 0) ≡ true) ↔ (a ≡ b)
unfolding compare
compare-zero_iff String.[] String.[] = (λ h. refl, λ h. refl)
compare-zero_iff String.[] (String.◌∷◌ d u) =
    (λ h. ground (arith, h), λ h. absurd (omega (arith, ap head_code h)))
compare-zero_iff (String.◌∷◌ c s) String.[] =
    (λ h. ground (arith, h), λ h. absurd (omega (arith, ap head_code h)))
compare-zero_iff (String.◌∷◌ c s) (String.◌∷◌ d u) = elim (Bool-cases (eqb (code c) (code d))) [
  | inl p ↦ (
    λ h.
        let first : c ≡ d = Char-path c d (ground (arith, p)) in
        let rest : s ≡ u = (compare-zero_iff s u).0 (rw p at h) in
        ap (λ x. String.◌∷◌ x s) first ∙ ap (String.◌∷◌ d) rest,
    λ h. rw p ((compare-zero_iff s u).1 (ap tail_of h)),
  )
  | inr p ↦ (λ h. ground (arith, h, p), λ h. absurd (ground (arith, p, ap head_code h)))
]

pub compare_asym : (a b : String) → IsBefore a b → ltb_ℤ (compare b a) (ℤ.pos 0) ≡ false
unfolding compare
compare_asym String.[] String.[] h = refl
compare_asym String.[] (String.◌∷◌ d u) h = refl
compare_asym (String.◌∷◌ c s) String.[] h = ground (arith, h)
compare_asym (String.◌∷◌ c s) (String.◌∷◌ d u) h = ground (arith, h, compare_asym s u)

pub compare_total :
    (a b : String)
    → ltb_ℤ (compare a b) (ℤ.pos 0) ≡ false
    → ltb_ℤ (compare b a) (ℤ.pos 0) ≡ false
    → a ≡ b
unfolding compare
compare_total String.[] String.[] h k = refl
compare_total String.[] (String.◌∷◌ d u) h k = ground (arith, h)
compare_total (String.◌∷◌ c s) String.[] h k = ground (arith, k)
compare_total (String.◌∷◌ c s) (String.◌∷◌ d u) h k = elim (Bool-cases (eqb (code c) (code d))) [
  | inl p ↦
      let first : c ≡ d = Char-path c d (ground (arith, p)) in
      let q : eqb (code d) (code c) ≡ true = ground (arith, p) in
      let rest : s ≡ u = compare_total s u (rw p at h) (rw q at k) in
      ap (λ x. String.◌∷◌ x s) first ∙ ap (String.◌∷◌ d) rest
  | inr p ↦ absurd (ground (arith, h, k, p))
]

pub compare_trans : (a b c : String) → IsBefore a b → IsBefore b c → IsBefore a c
unfolding compare
compare_trans String.[] String.[] c h k = k
compare_trans String.[] (String.◌∷◌ y b) String.[] h k = ground (arith, k)
compare_trans String.[] (String.◌∷◌ y b) (String.◌∷◌ z c) h k = refl
compare_trans (String.◌∷◌ x a) String.[] c h k = ground (arith, h)
compare_trans (String.◌∷◌ x a) (String.◌∷◌ y b) String.[] h k = ground (arith, k)
compare_trans (String.◌∷◌ x a) (String.◌∷◌ y b) (String.◌∷◌ z c) h k =
    ground (arith, h, k, compare_trans a b c)
