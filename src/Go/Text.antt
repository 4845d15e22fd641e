-- ===== src/Go/Text.antt =====
-- `strings.TrimSpace` and the test of it against "". The white space is Unicode's.
use Prim.Native.Char.{Char, code}
use Prim.Native.String.{[], ◌∷◌}
use kube_bundler.Prelude.{ℕ, String, ◌≡◌, ◌≢◌, ◌↔◌, refl, Bool, true, ◌||◌, ◌&&◌, arith}
use kube_bundler.Prelude.{eqb, leb, if◌then◌else◌, Bool-cases, inl, inr}

-- unicode.IsSpace
unfoldable pub is_space : ℕ → Bool
is_space c =
    leb 0x09 c && leb c 0x0d
    || eqb c 0x20
    || eqb c 0x85
    || eqb c 0xa0
    || eqb c 0x1680
    || leb 0x2000 c && leb c 0x200a
    || leb 0x2028 c && leb c 0x2029
    || eqb c 0x202f
    || eqb c 0x205f
    || eqb c 0x3000

unfoldable pub trim_left : String → String
trim_left [] = []
trim_left (c ∷ s) = let rest = trim_left s in if is_space (code c) then rest else c ∷ s

-- The character goes if it is white space and nothing is left behind it.
put_before : Char → String → String
put_before c [] = if is_space (code c) then [] else c ∷ []
put_before c (d ∷ t) = c ∷ d ∷ t

unfoldable pub trim_right : String → String
unfolding put_before
trim_right [] = []
trim_right (c ∷ s) = put_before c (trim_right s)

unfoldable pub trim_space : String → String
unfolding trim_left trim_right is_space
trim_space s = trim_right (trim_left s)

cons-ne-nil : {c : Char} {s : String} → (c ∷ s) ≢ []
cons-ne-nil e = cc

-- Every character is white space.
abbrev pub IsBlank : String → Type 0
IsBlank [] = Unit
IsBlank (c ∷ s) = (is_space (code c) ≡ true) × IsBlank s

trim_left-IsBlank : (s : String) → IsBlank s → trim_left s ≡ []
unfolding trim_left
trim_left-IsBlank [] h = refl
trim_left-IsBlank (c ∷ s) h = ground (arith, trim_left-IsBlank s h.1)

put_before-eq-nil :
    (c : Char) (s : String) → put_before c s ≡ [] → (is_space (code c) ≡ true) × (s ≡ [])
unfolding put_before
put_before-eq-nil c [] h = elim (Bool-cases (is_space (code c))) [
  | inl e ↦ (e, refl)
  | inr e ↦ absurd (cons-ne-nil (rw e at h))
]
put_before-eq-nil c (d ∷ t) h = absurd (cons-ne-nil h)

trim_right-IsBlank : (s : String) → trim_right s ≡ [] → IsBlank s
unfolding trim_right
trim_right-IsBlank [] h = tt
trim_right-IsBlank (c ∷ s) h =
    let (blank, rest) = put_before-eq-nil c (trim_right s) h in (blank, trim_right-IsBlank s rest)

trim_left-nil : (s : String) → IsBlank (trim_left s) → IsBlank s
unfolding trim_left
trim_left-nil [] h = tt
trim_left-nil (c ∷ s) h = ground (arith, trim_left-nil s)

-- A text is trimmed to "" exactly if it is blank.
pub trim_space-eq-nil_iff : (s : String) → (trim_space s ≡ []) ↔ IsBlank s
unfolding trim_space
trim_space-eq-nil_iff s =
    (λ h. trim_left-nil s (trim_right-IsBlank (trim_left s) h), λ h. rw (trim_left-IsBlank s h))
