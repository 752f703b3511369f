-- ===== src/Recorded.antt =====
-- src/north_standard/recorded_real.py: recorded traces of a real device, their calibration, and the
-- contract and bundle that are made of them.
pub mod Trace
pub mod Calibration
pub mod Contract
pub mod Bundle
pub mod Protocol
use Prim.Native.String.{◌++◌ as str_append}
use north_standard.Base.{
  ℕ, suc, ◌/◌, String, Bool, not, ◌||◌, Option, none, some, List, Result, ok, err,
  recorded_real_error, ◌>>=◌, ◌>>◌, raise_if, nonempty, if◌then◌else◌,
}
use north_standard.Base.Int.{ℤ, pos, negsuc, ltb_ℤ, leb_ℤ}
use north_standard.Base.Decimal.{decimal}
use north_standard.Value.{
  Float, Value, integer, float, null, Fields, get, as_text, as_int, to_float,
}

-- What the module does with floats besides: `math.isfinite`, the quotient of two floats, and
-- `statistics.median`.
pub record Measure (F : Type 0) : Type 0 where
  pub is_finite : F → Bool
  pub div : F → F → F
  pub median : List F → F

-- `str(n)`
unfoldable pub show_ℤ : ℤ → String
unfolding decimal
show_ℤ (pos n) = decimal n
show_ℤ (negsuc n) = str_append "-" (decimal (suc n))

-- `n // 1000`, which rounds down
abbrev pub seconds_of : ℤ → ℤ
seconds_of (pos n) = pos (n / 1000)
seconds_of (negsuc n) = negsuc (n / 1000)

module _ {F : Type 0} where
  -- `_required_string`
  unfoldable pub required_string : Fields F → String → Result String
  required_string mapping field = elim (as_text (get field null mapping)) [
    | none ↦ err (recorded_real_error (str_append field " must be a non-empty string"))
    | some s ↦
        raise_if (not (nonempty s))
          (recorded_real_error (str_append field " must be a non-empty string"))
        >> ok s
  ]

  -- an `int` that is no `bool` and at least a bound, or else the error
  unfoldable pub required_int : ℤ → String → Value F → Result ℤ
  required_int least message v = elim (as_int v) [
    | none ↦ err (recorded_real_error message)
    | some n ↦ raise_if (ltb_ℤ n least) (recorded_real_error message) >> ok n
  ]

module _ {F : Type 0} ⦃fl : Float F⦄ ⦃ms : Measure F⦄ where
  -- the second test of `_positive_finite`
  abbrev pub is_positive_finite : F → Bool
  is_positive_finite x = not (not (ms.is_finite x) || not (fl.lt (fl.lit 0 0) x))

  abbrev finite_or_raise : String → F → Result F
  finite_or_raise field x =
      raise_if (not (is_positive_finite x))
        (recorded_real_error (str_append field " must be finite and > 0"))
      >> ok x

  -- `_positive_finite`
  unfoldable pub positive_finite : Value F → String → Result F
  positive_finite (integer n) field = to_float (integer n) >>= finite_or_raise field
  positive_finite (float x) field = finite_or_raise field x
  positive_finite _ field = err (recorded_real_error (str_append field " must be numeric"))
