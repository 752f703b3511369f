-- ===== src/Base/Decimal.antt =====
-- `str(n)` for a number that is not negative, as f-strings write it.
use Prim.Native.Nat.{ℕ, zero, suc, ◌/◌, ◌%◌, ◌+◌}
use Prim.Native.String.{String, ◌++◌ as str_append}
use mathlib.Core.Bool.{true, false}
use north_standard.Base.Tests.{ltb}

digit : ℕ → String
digit zero = "0"
digit (suc zero) = "1"
digit (suc (suc zero)) = "2"
digit (suc (suc (suc zero))) = "3"
digit (suc (suc (suc (suc zero)))) = "4"
digit (suc (suc (suc (suc (suc zero))))) = "5"
digit (suc (suc (suc (suc (suc (suc zero)))))) = "6"
digit (suc (suc (suc (suc (suc (suc (suc zero))))))) = "7"
digit (suc (suc (suc (suc (suc (suc (suc (suc zero)))))))) = "8"
digit _ = "9"

-- A number has fewer digits than its value plus one, which is the fuel.
digits_of : ℕ → ℕ → String
digits_of zero n = ""
digits_of (suc fuel) n = elim (ltb n 10) [
  | true ↦ digit n
  | false ↦ str_append (digits_of fuel (n / 10)) (digit (n % 10))
]

unfoldable pub decimal : ℕ → String
unfolding digits_of digit
decimal n = digits_of (n + 1) n
