-- ===== src/Parameter/Hex.antt =====
-- `hex.EncodeToString` of Go's standard library, on bytes given as numbers.
use Prim.Native.Char.{Char}
use kube_bundler.Prelude.{ℕ, zero, suc, ◌/◌, ◌%◌, String, ◌≡◌, List, [], ◌∷◌, refl}

digits : List Char
digits =
    "0" ∷ "1" ∷ "2" ∷ "3" ∷ "4" ∷ "5" ∷ "6" ∷ "7" ∷ "8" ∷ "9" ∷ "a" ∷ "b" ∷ "c" ∷ "d" ∷ "e" ∷ "f"
    ∷ []

digit_at : ℕ → List Char → Char
digit_at n [] = "0"
digit_at zero (c ∷ cs) = c
digit_at (suc n) (c ∷ cs) = digit_at n cs

unfoldable pub hex_encode : List ℕ → String
unfolding digits digit_at
hex_encode [] = String.[]
hex_encode (b ∷ bs) =
    String.◌∷◌ (digit_at (b / 16) digits) (String.◌∷◌ (digit_at (b % 16) digits) (hex_encode bs))

hex_deadbeef : hex_encode (0xde ∷ 0xad ∷ 0x0f ∷ []) ≡ "dead0f"
unfolding hex_encode
hex_deadbeef = refl
