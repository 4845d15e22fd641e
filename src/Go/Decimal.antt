-- ===== src/Go/Decimal.antt =====
-- The verb `%d` of package fmt.
use kube_bundler.Prelude.{ℕ, zero, suc, ◌+◌, ◌/◌, ◌%◌, String, ◌<>◌, ◌≡◌, refl, ltb, true, false}
use kube_bundler.Prelude.Int.{ℤ}

digit : ℕ → String
digit zero = "0"
digit (suc zero) = "1"
digit (suc (suc zero)) = "2"
digit (suc (suc (suc zero))) = "3"
digit (suc (suc (suc (suc zero)))) = "4"
digit (suc (suc (suc (suc (suc zero))))) = "5"
digit (suc (suc (suc (suc (suc (suc zero)))))) = "6"
digit (suc (suc (suc (suc (suc (suc (suc zero))))))) = "7"
digit (suc (suc (suc (suc (suc (suc (suc (suc zero)))))))) = "8"
digit (suc (suc (suc (suc (suc (suc (suc (suc (suc n))))))))) = "9"

-- The fuel is at least the number of digits.
decimal_from : ℕ → ℕ → String
unfolding digit
decimal_from zero n = ""
decimal_from (suc fuel) n = elim (ltb n 10) [
  | true ↦ digit n
  | false ↦ decimal_from fuel (n / 10) <> digit (n % 10)
]

unfoldable pub decimal : ℤ → String
unfolding decimal_from
decimal (ℤ.pos n) = decimal_from (n + 1) n
decimal (ℤ.negsuc n) = "-" <> decimal_from (n + 2) (n + 1)

decimal_runs : decimal (ℤ.negsuc 136) ≡ "-137"
unfolding decimal
decimal_runs = refl
