-- ===== src/Recorded/Protocol.antt =====
-- src/north_standard/recorded_protocol.py: the binding of a calibration to the shape of its challenge.
pub mod Binding
use Prim.Native.String.{count}
use north_standard.Base.{
  ℕ, String, Bool, not, Option, none, some, List, [], ◌∷◌, Result, ok, err, recorded_real_error,
  value_error, type_error, or_raise, ◌>>=◌, ◌>>◌, raise_if, map_result, check_each, str_eq, ◌==◌,
  if◌then◌else◌,
}
use north_standard.Base.Int.{ℤ, pos}
use north_standard.Value.{
  Float, Value, boolean, integer, float, str, enum, null, dict, Fields, put, get, item, as_text,
  as_dict, fields_of, dict_of,
}
use north_standard.Canonical.{Hashing, canonical_sha256}
use north_standard.Recorded.{Measure}
use north_standard.Recorded.Trace.{validate_trace, dict_or_raise}
use north_standard.Recorded.Calibration.{validate_calibration, has_distinct}
use north_standard.Recorded.Contract.{first_of}

-- `int` of a float, which raises on a NaN or an infinity, and of a text, `none` where it is no number.
pub record Whole (F : Type 0) : Type 0 where
  pub truncate : F → Result ℤ
  pub parse : String → Option ℤ

-- `_CHALLENGE_PROFILE_FIELDS`
abbrev pub challenge_profile_fields : List String
challenge_profile_fields = "elements" ∷ "compute_inner_iterations" ∷ "warmup_iterations" ∷ []

module _ {F : Type 0} ⦃ws : Whole F⦄ where
  -- `int(v)`
  abbrev pub to_int : Value F → Result ℤ
  to_int (boolean b) = ok (pos (if b then 1 else 0))
  to_int (integer n) = ok n
  to_int (float x) = ws.truncate x
  to_int (str s) = or_raise (ws.parse s) (value_error "invalid literal for int() with base 10")
  to_int (enum s) = or_raise (ws.parse s) (value_error "invalid literal for int() with base 10")
  to_int _ = err type_error

  -- `field: int(challenge[field])`
  abbrev pub profile_entry : Fields F → String → Result (String × Value F)
  profile_entry challenge key = do n ← to_int (← item key challenge); ok (key, integer n)

module _ {F : Type 0} where
  -- `{field: profile.get(field) for field in _CHALLENGE_PROFILE_FIELDS}`
  abbrev pub normalized_profile : Fields F → Fields F
  normalized_profile profile = fields_of (
      ("elements", get "elements" null profile)
      ∷ ("compute_inner_iterations", get "compute_inner_iterations" null profile)
      ∷ ("warmup_iterations", get "warmup_iterations" null profile)
      ∷ [])

  -- `isinstance(v, str)` and `len(v) == 64`, or else the error
  abbrev pub digest_or_raise : Value F → Result String
  digest_or_raise v = elim (as_text v) [
    | none ↦ err (
        recorded_real_error
          "calibration is not challenge-bound; rebuild it with calibrate_recorded.py")
    | some s ↦
        raise_if (not (count s == 64)) (
          recorded_real_error
            "calibration is not challenge-bound; rebuild it with calibrate_recorded.py")
        >> ok s
  ]

module _ {F : Type 0} ⦃fl : Float F⦄ ⦃ms : Measure F⦄ ⦃ws : Whole F⦄ where
  unfoldable pub challenge_profile : Fields F → Result (Fields F)
  challenge_profile trace = do
    validate_trace trace
    challenge ← as_dict (← item "challenge" trace)
    values ← map_result (profile_entry challenge) challenge_profile_fields
    ok (fields_of values)

module _ {F : Type 0} ⦃fl : Float F⦄ ⦃ms : Measure F⦄ ⦃ws : Whole F⦄ ⦃hs : Hashing F⦄ where
  unfoldable pub challenge_fingerprint : Fields F → Result String
  challenge_fingerprint trace =
      challenge_profile trace >>= λ profile. canonical_sha256 (dict profile)

  -- the body of the loop over the traces
  abbrev pub matches_challenge : (expected : String) → Fields F → Result (Unit {0})
  matches_challenge expected trace = challenge_fingerprint trace >>= λ fingerprint.
      raise_if (not (str_eq fingerprint expected))
        (recorded_real_error "trace challenge configuration does not match calibration")

  unfoldable pub bind_calibration_to_challenge :
      (calibration : Fields F) (traces : List (Fields F)) → Result (Fields F)
  bind_calibration_to_challenge calibration [] = do
    validate_calibration calibration
    err (recorded_real_error "challenge binding requires at least one calibration trace")
  bind_calibration_to_challenge calibration (first ∷ others) = do
    validate_calibration calibration
    fingerprints ← map_result challenge_fingerprint (first ∷ others)
    raise_if (not (has_distinct 1 fingerprints))
        (recorded_real_error "calibration traces use different challenge configurations")
    profile ← challenge_profile first
    fingerprint ← first_of fingerprints
    ok (
        put "challenge_profile" (dict profile)
          (put "challenge_fingerprint" (str fingerprint) calibration))

  unfoldable pub validate_challenge_binding :
      (calibration : Fields F) (traces : List (Fields F)) → Result (Unit {0})
  validate_challenge_binding calibration traces = do
    validate_calibration calibration
    expected ← digest_or_raise (get "challenge_fingerprint" null calibration)
    profile ←
        dict_or_raise "calibration challenge_profile is missing"
          (get "challenge_profile" null calibration)
    digest ← canonical_sha256 (dict (normalized_profile profile))
    raise_if (not (str_eq digest expected))
        (recorded_real_error "calibration challenge profile hash mismatch")
    check_each (matches_challenge expected) traces
