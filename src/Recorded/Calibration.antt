-- ===== src/Recorded/Calibration.antt =====
-- src/north_standard/recorded_real.py: calibrations, and the score of a sample against one.
pub mod Matching
use Prim.Native.String.{◌++◌ as str_append}
use mathlib.Core.List.{foldl}
use north_standard.Base.{
  ℕ, String, Bool, not, any, List, [], ◌∷◌, map, length, is_empty, concat_map, Option, none, some,
  Result, ok, err, recorded_real_error, value_error, type_error, ◌++◌, ◌>>=◌, ◌>>◌, raise_if,
  map_result, any_result, check_each, str_eq, ◌&&◌, ◌==◌, nonempty, if◌then◌else◌,
}
use north_standard.Base.Int.{ℤ, pos, ltb_ℤ}
use north_standard.Value.{
  Float, Value, integer, float, str, null, dict, list, Fields, get, item, is_text, as_text, as_int,
  as_list, as_dict, fields_of, texts, to_float,
}
use north_standard.Canonical.{Hashing}
use north_standard.Authorization.Hex.{is_lower_hex_text}
use north_standard.Verifier.Binding.{distinct}
use north_standard.Recorded.{Measure, required_string, positive_finite}
use north_standard.Recorded.Trace.{validate_trace, device_fingerprint}

-- `RECORDED_REAL` and `CALIBRATION_STATUS`
abbrev pub recorded_real : String
recorded_real = "RECORDED_REAL"

abbrev pub calibration_status : String
calibration_status = "RESEARCH_CALIBRATION_NOT_PRODUCTION_THRESHOLD"

-- `len(set(xs)) == n`
abbrev pub has_distinct : ℕ → List String → Bool
has_distinct n xs = length (distinct xs) == n

abbrev same_key : (a b : String × String × String) → Bool
same_key (a, b, c) (d, e, f) = str_eq a d && str_eq b e && str_eq c f

-- What `score_sample` returns.
pub record Normalized (F : Type 0) : Type 0 where
  pub score : F
  pub compute_ratio : F
  pub memory_ratio : F

module _ {F : Type 0} where
  -- `d[key]`, used as a text, as an integer, as a list
  abbrev pub text_at : String → Fields F → Result String
  text_at key d = item key d >>= λ v. elim (as_text v) [ none ↦ err type_error | some s ↦ ok s ]

  abbrev pub int_at : String → Fields F → Result ℤ
  int_at key d = item key d >>= λ v. elim (as_int v) [ none ↦ err type_error | some n ↦ ok n ]

  abbrev pub list_at : String → Fields F → Result (List (Value F))
  list_at key d = item key d >>= as_list

  -- the samples of all traces, in order
  abbrev pub samples_of : List (Fields F) → Result (List (Fields F))
  samples_of [] = ok []
  samples_of (trace ∷ traces) = do
    values ← list_at "samples" trace
    samples ← map_result as_dict values
    others ← samples_of traces
    ok (samples ++ others)

-- `max` of integers, from a first one
abbrev pub max_from : ℤ → List ℤ → ℤ
max_from = foldl (λ best n. if ltb_ℤ best n then n else best)

abbrev pub min_from : ℤ → List ℤ → ℤ
min_from = foldl (λ best n. if ltb_ℤ n best then n else best)

-- `max(…)` and `min(…)` of a list, which raise on an empty one
abbrev pub max_of_ints : List ℤ → Result ℤ
max_of_ints [] = err (value_error "max() iterable argument is empty")
max_of_ints (n ∷ ns) = ok (max_from n ns)

abbrev pub min_of_ints : List ℤ → Result ℤ
min_of_ints [] = err (value_error "min() iterable argument is empty")
min_of_ints (n ∷ ns) = ok (min_from n ns)

module _ {F : Type 0} ⦃fl : Float F⦄ ⦃ms : Measure F⦄ where
  unfoldable pub validate_calibration : Fields F → Result (Unit {0})
  validate_calibration calibration = do
    raise_if (not (is_text "gpu-calibration/0.1" (get "schema_version" null calibration)))
        (recorded_real_error "unsupported gpu calibration schema_version")
    raise_if (not (is_text recorded_real (get "provenance" null calibration)))
        (recorded_real_error "calibration provenance must be RECORDED_REAL")
    raise_if (not (is_text calibration_status (get "status" null calibration)))
        (recorded_real_error "unsupported calibration status")
    id ← required_string calibration "calibration_id"
    fingerprint ← required_string calibration "device_fingerprint"
    raise_if (not (is_lower_hex_text 64 fingerprint))
        (recorded_real_error "device_fingerprint must be lowercase SHA-256 hex")
    runtime ← required_string calibration "runtime_profile_id"
    benchmark ← required_string calibration "benchmark_profile_id"
    compute ←
        positive_finite (get "reference_compute_gflops" null calibration) "reference_compute_gflops"
    memory ← positive_finite (get "reference_memory_gbps" null calibration) "reference_memory_gbps"
    ok tt

  unfoldable pub score_sample : (sample calibration : Fields F) → Result (Normalized F)
  score_sample sample calibration = do
    validate_calibration calibration
    compute ← positive_finite (get "compute_gflops" null sample) "sample.compute_gflops"
    memory ← positive_finite (get "memory_gbps" null sample) "sample.memory_gbps"
    compute_reference ← to_float (← item "reference_compute_gflops" calibration)
    memory_reference ← to_float (← item "reference_memory_gbps" calibration)
    let by_compute = ms.div compute compute_reference
    let by_memory = ms.div memory memory_reference
    ok (record {
      score = if fl.lt by_memory by_compute then by_memory else by_compute;
      compute_ratio = by_compute;
      memory_ratio = by_memory;
    })

module _ {F : Type 0} where
  abbrev pub created_or_latest : Option ℤ → List (Fields F) → Result ℤ
  created_or_latest (some n) traces = ok n
  created_or_latest none traces = map_result (int_at "captured_at_unix_ms") traces >>= max_of_ints

  -- the calibration that `build_calibration` returns
  abbrev pub calibration_of :
      (calibration_id : String)
      → (created : ℤ) → (key : String × String × String) → (device : Fields F)
      → (compute memory : F) → (traces samples : ℕ) → (source_ids : List String) → Fields F
  calibration_of calibration_id created (fingerprint, runtime, benchmark) device compute memory
        traces samples source_ids =
      fields_of (
        ("schema_version", str "gpu-calibration/0.1")
        ∷ ("provenance", str recorded_real)
        ∷ ("calibration_id", str calibration_id)
        ∷ ("created_at_unix_ms", integer created)
        ∷ ("device_fingerprint", str fingerprint)
        ∷ ("device", dict device)
        ∷ ("runtime_profile_id", str runtime)
        ∷ ("benchmark_profile_id", str benchmark)
        ∷ ("reference_compute_gflops", float compute)
        ∷ ("reference_memory_gbps", float memory)
        ∷ ("trace_count", integer (pos traces))
        ∷ ("sample_count", integer (pos samples))
        ∷ ("source_capture_ids", texts source_ids)
        ∷ ("status", str calibration_status)
        ∷ (
          "limitations",
          texts (
              "Calibration is device/profile specific and must not be generalized to other GPU classes."
              ∷ "Reference values are medians of explicitly designated healthy recorded captures."
              ∷ "The resulting normalized score is a research metric, not a production SLA standard."
              ∷ []),
        )
        ∷ [])

module _ {F : Type 0} ⦃fl : Float F⦄ ⦃ms : Measure F⦄ where
  -- `[_positive_finite(sample[field], name) for … in …]`
  abbrev pub measured : (field name : String) → List (Fields F) → Result (List F)
  measured field name = map_result λ s. item field s >>= λ v. positive_finite v name

module _ {F : Type 0} ⦃fl : Float F⦄ ⦃ms : Measure F⦄ ⦃hs : Hashing F⦄ where
  -- `_ensure_trace_matches_calibration`
  unfoldable pub ensure_trace_matches_calibration :
      (trace calibration : Fields F) → Result (Unit {0})
  ensure_trace_matches_calibration trace calibration = do
    validate_trace trace
    validate_calibration calibration
    fingerprint ← device_fingerprint trace
    raise_if (not (is_text fingerprint (get "device_fingerprint" null calibration)))
        (recorded_real_error "trace device does not match calibration device")
    runtime ← text_at "runtime_profile_id" calibration
    raise_if (not (is_text runtime (get "runtime_profile_id" null trace)))
        (recorded_real_error "trace runtime profile does not match calibration")
    benchmark ← text_at "benchmark_profile_id" calibration
    raise_if (not (is_text benchmark (get "benchmark_profile_id" null trace)))
        (recorded_real_error "trace benchmark profile does not match calibration")

  -- `_compatible_trace_key`
  unfoldable pub compatible_trace_key : Fields F → Result (String × String × String)
  compatible_trace_key trace = do
    fingerprint ← device_fingerprint trace
    runtime ← text_at "runtime_profile_id" trace
    benchmark ← text_at "benchmark_profile_id" trace
    ok (fingerprint, runtime, benchmark)

  unfoldable pub build_calibration :
      List (Fields F)
      → (calibration_id : String) → (created_at_unix_ms : Option ℤ) → Result (Fields F)
  build_calibration [] calibration_id created_at_unix_ms =
      err (recorded_real_error "at least one healthy recorded trace is required")
  build_calibration (first ∷ others) calibration_id created_at_unix_ms = do
    let traces = first ∷ others
    raise_if (not (nonempty calibration_id)) (recorded_real_error "calibration_id is required")
    check_each validate_trace traces
    expected ← compatible_trace_key first
    differ ←
        any_result (λ trace. compatible_trace_key trace >>= λ k. ok (not (same_key k expected)))
          others
    raise_if differ (
        recorded_real_error
          "all calibration traces must share device, runtime profile, and benchmark profile")
    samples ← samples_of traces
    compute_values ← measured "compute_gflops" "sample.compute_gflops" samples
    memory_values ← measured "memory_gbps" "sample.memory_gbps" samples
    source_ids ← map_result (text_at "capture_id") traces
    raise_if (not (has_distinct (length source_ids) source_ids))
        (recorded_real_error "calibration capture_id values must be unique")
    created ← created_or_latest created_at_unix_ms traces
    device ← as_dict (← item "device" first)
    ok (
        calibration_of calibration_id created expected device (ms.median compute_values)
          (ms.median memory_values) (length traces) (length compute_values) source_ids)
