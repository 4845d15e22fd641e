-- ===== src/Prelude/Int.antt =====
-- Go's signed integers over the native numbers. `int` is unbounded here; `int32` wraps.
use Prim.Native.Nat.{ℕ, suc, ◌+◌, ◌-◌, ◌/◌, ◌%◌, ◌≤◌, ◌<◌}
use kube_bundler.Prelude.Tests.{ltb, leb, eqb, if◌then◌else◌}
use mathlib.Core.Path.{◌≡◌}
use mathlib.Core.Logic.{◌↔◌}
use mathlib.Core.Bool.{Bool}
use native.Mathlib.Omega.{arith}

-- `negsuc n` is -(n + 1).
pub data ℤ : Type 0 where
  pos : ℕ → ℤ
  negsuc : ℕ → ℤ

abbrev pub pos_part : ℤ → ℕ
pos_part (pos n) = n
pos_part (negsuc n) = 0

abbrev pub neg_part : ℤ → ℕ
neg_part (pos n) = 0
neg_part (negsuc n) = suc n

-- a - b, as an integer.
abbrev pub sub_ℕ : ℕ → ℕ → ℤ
sub_ℕ a b = if leb b a then pos (a - b) else negsuc (b - a - 1)

infixl 65 ◌-ℤ◌
infix 50 ◌≤ℤ◌ ◌<ℤ◌
unfoldable pub ◌-ℤ◌ : ℤ → ℤ → ℤ
a -ℤ b = sub_ℕ (pos_part a + neg_part b) (neg_part a + pos_part b)

abbrev pub ◌≤ℤ◌ : ℤ → ℤ → Type 0
a ≤ℤ b = pos_part a + neg_part b ≤ pos_part b + neg_part a

abbrev pub ◌<ℤ◌ : ℤ → ℤ → Type 0
a <ℤ b = pos_part a + neg_part b < pos_part b + neg_part a

-- The tests `a < b`, `a <= b` and `a == b`.
abbrev pub ltb_ℤ : ℤ → ℤ → Bool
ltb_ℤ a b = ltb (pos_part a + neg_part b) (pos_part b + neg_part a)

abbrev pub leb_ℤ : ℤ → ℤ → Bool
leb_ℤ a b = leb (pos_part a + neg_part b) (pos_part b + neg_part a)

abbrev pub eqb_ℤ : ℤ → ℤ → Bool
eqb_ℤ a b = eqb (pos_part a + neg_part b) (pos_part b + neg_part a)

-- Go's `a / 2`, which rounds towards zero.
unfoldable pub half : ℤ → ℤ
half (pos n) = pos (n / 2)
half (negsuc n) = sub_ℕ 0 (suc n / 2)

-- The conversion `int32(n)`: the low 32 bits, read in two's complement.
abbrev pub low_32 : ℤ → ℕ
low_32 (pos n) = n % 4294967296
low_32 (negsuc n) = 4294967295 - n % 4294967296

unfoldable pub int32 : ℤ → ℤ
int32 n = if ltb (low_32 n) 2147483648 then pos (low_32 n) else negsuc (4294967295 - low_32 n)

-- A number in the range of `int32` is converted to itself.
pub int32-id : (n : ℤ) → negsuc 2147483647 ≤ℤ n → n <ℤ pos 2147483648 → int32 n ≡ n
unfolding int32
int32-id (pos n) lo hi = ground arith
int32-id (negsuc n) lo hi = ground arith

-- The order goes by subtraction.
pub lt-sub_iff :
    (a b c : ℤ)
    → (a <ℤ (b -ℤ c))
      ↔ (pos_part a + neg_part b + pos_part c < pos_part b + neg_part a + neg_part c)
unfolding ◌-ℤ◌
lt-sub_iff a b c = ((λ h. ground arith), (λ h. ground arith))
