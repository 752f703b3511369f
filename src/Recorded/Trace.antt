-- ===== src/Recorded/Trace.antt =====
-- src/north_standard/recorded_real.py, `validate_trace` and what is read of a valid trace.
pub mod Samples
use Prim.Native.String.{◌++◌ as str_append}
use north_standard.Base.{
  ℕ, zero, suc, String, Bool, not, any, List, [], ◌∷◌, map, length, Result, ok, err,
  recorded_real_error, ◌>>=◌, ◌>>◌, raise_if, map_result, check_each, ltb,
}
use north_standard.Base.Int.{ℤ, pos, negsuc, ltb_ℤ, eq_ℤ}
use north_standard.Value.{
  Float, Value, null, dict, list, Fields, get, item, is_text, has_key, items_in, as_dict, dict_of,
}
use north_standard.Canonical.{Hashing, canonical_sha256}
use north_standard.Recorded.{Measure, required_string, required_int, positive_finite}

-- `_DEVICE_FINGERPRINT_FIELDS`, of which the first is the name
abbrev pub device_numbers : List String
device_numbers =
    "compute_capability_major" ∷ "compute_capability_minor" ∷ "global_memory_bytes"
    ∷ "multiprocessor_count" ∷ "memory_bus_width_bits" ∷ []

abbrev pub measurement_fields : List String
measurement_fields = "compute_ms" ∷ "compute_gflops" ∷ "memory_ms" ∷ "memory_gbps" ∷ []

abbrev pub device_fingerprint_fields : List String
device_fingerprint_fields = "name" ∷ device_numbers

module _ {F : Type 0} where
  -- `isinstance(v, dict)`, or else the error
  abbrev pub dict_or_raise : String → Value F → Result (Fields F)
  dict_or_raise message (dict fs) = ok fs
  dict_or_raise message _ = err (recorded_real_error message)

  abbrev pub list_or_raise : String → Value F → Result (List (Value F))
  list_or_raise message (list xs) = ok (items_in xs)
  list_or_raise message _ = err (recorded_real_error message)

  -- the checks of the device
  unfoldable pub check_device : Value F → Result (Unit {0})
  check_device v = do
    device ← dict_or_raise "device must be an object" v
    check_each
        (λ field.
          raise_if (not (has_key field device))
            (recorded_real_error (str_append "device." (str_append field " is required"))))
        device_fingerprint_fields
    name ← required_string device "name"
    check_each
        (λ field.
          required_int (pos 1)
            (str_append "device." (str_append field " must be a positive integer"))
            (get field null device)
          >>= λ _. ok tt)
        device_numbers

  -- the checks of the challenge, which give the number of measurements
  unfoldable pub check_challenge : Value F → Result ℤ
  check_challenge v = do
    challenge ← dict_or_raise "challenge must be an object" v
    elements ←
        required_int (pos 1) "challenge.elements must be a positive integer"
          (get "elements" null challenge)
    inner ←
        required_int (pos 1) "challenge.compute_inner_iterations must be a positive integer"
          (get "compute_inner_iterations" null challenge)
    measured ←
        required_int (pos 1) "challenge.measurement_iterations must be a positive integer"
          (get "measurement_iterations" null challenge)
    raise_if (ltb_ℤ measured (pos 2))
        (recorded_real_error "challenge.measurement_iterations must be >= 2")
    ok measured

module _ {F : Type 0} ⦃fl : Float F⦄ ⦃ms : Measure F⦄ where
  -- The body of the loop over the samples: the index and the time of the sample.
  unfoldable pub check_sample :
      (seen_indices : List ℤ) (previous_observed : ℤ) → Value F → Result (ℤ × ℤ)
  check_sample seen_indices previous_observed v = do
    sample ← dict_or_raise "each sample must be an object" v
    index ←
        required_int (pos 0) "sample_index must be a non-negative integer"
          (get "sample_index" null sample)
    raise_if (any (eq_ℤ index) seen_indices)
        (recorded_real_error "sample_index values must be unique")
    observed ←
        required_int (pos 0) "sample observed_at_unix_ms must be non-negative"
          (get "observed_at_unix_ms" null sample)
    raise_if (ltb_ℤ observed previous_observed)
        (recorded_real_error "sample timestamps must be monotonic")
    check_each
        (λ field.
          positive_finite (get field null sample) (str_append "sample." field) >>= λ _. ok tt)
        measurement_fields
    ok (index, observed)

  -- the loop over the samples
  unfoldable pub check_samples :
      (seen_indices : List ℤ) (previous_observed : ℤ) → List (Value F) → Result (Unit {0})
  check_samples seen_indices previous_observed [] = ok tt
  check_samples seen_indices previous_observed (v ∷ vs) =
      check_sample seen_indices previous_observed v >>= λ (index, observed).
      check_samples (index ∷ seen_indices) observed vs

  unfoldable pub validate_trace : Fields F → Result (Unit {0})
  unfolding check_device check_challenge
  validate_trace trace = do
    raise_if (not (is_text "gpu-trace/0.1" (get "schema_version" null trace)))
        (recorded_real_error "unsupported gpu trace schema_version")
    raise_if (not (is_text "RECORDED_REAL" (get "provenance" null trace)))
        (recorded_real_error "Mode R accepts only provenance=RECORDED_REAL")
    check_each (λ field. required_string trace field >>= λ _. ok tt)
        ("capture_id" ∷ "contract_id" ∷ "session_id" ∷ "runtime_profile_id" ∷ "benchmark_profile_id"
          ∷ [])
    captured ←
        required_int (pos 0) "captured_at_unix_ms must be a non-negative integer"
          (get "captured_at_unix_ms" null trace)
    collector ← dict_or_raise "collector must be an object" (get "collector" null trace)
    raise_if (not (is_text "north-standard-cuda-probe" (get "name" null collector)))
        (recorded_real_error "unsupported collector")
    raise_if (not (is_text "LOCAL_SOFTWARE_ONLY" (get "authentication" null collector)))
        (recorded_real_error "Mode R v0.1 expects LOCAL_SOFTWARE_ONLY authentication")
    check_device (get "device" null trace)
    measured ← check_challenge (get "challenge" null trace)
    samples ← list_or_raise "at least two recorded samples are required" (get "samples" null trace)
    raise_if (ltb (length samples) 2)
        (recorded_real_error "at least two recorded samples are required")
    raise_if (not (eq_ℤ measured (pos (length samples))))
        (recorded_real_error "measurement_iterations must equal the number of samples")
    check_samples [] (negsuc 0) samples

module _ {F : Type 0} ⦃fl : Float F⦄ ⦃ms : Measure F⦄ ⦃hs : Hashing F⦄ where
  unfoldable pub device_fingerprint : Fields F → Result String
  device_fingerprint trace = do
    validate_trace trace
    device ← as_dict (← item "device" trace)
    identity ←
        map_result (λ field. item field device >>= λ v. ok (field, v)) device_fingerprint_fields
    canonical_sha256 (dict_of identity)
