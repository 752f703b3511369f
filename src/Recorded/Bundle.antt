-- ===== src/Recorded/Bundle.antt =====
-- src/north_standard/recorded_real.py, `build_recorded_bundle`.
pub mod Shape
pub mod Verdict
use Prim.Native.String.{◌++◌ as str_append}
use north_standard.Base.{
  ℕ, suc, ◌+◌, String, Bool, true, false, not, ◌||◌, some, List, [], ◌∷◌, ◌++◌, Result, ok, err,
  recorded_real_error, ◌>>=◌, ◌>>◌, raise_if, map_result, check_each, concat_map, index_error,
}
use north_standard.Base.Int.{ℤ, pos}
use north_standard.Base.Decimal.{decimal}
use north_standard.Value.{
  Float, Value, boolean, float, str, null, Fields, get, item, is_text, as_dict, fields_of, merge,
}
use north_standard.Canonical.{Hashing}
use north_standard.Models.{
  ComputeContract, EvidenceRecord, EvidenceBundle, EvidenceType, session_binding, runtime_check,
  telemetry, challenge, check_record,
}
use north_standard.Recorded.{Measure, seconds_of, show_ℤ}
use north_standard.Recorded.Calibration.{
  recorded_real, text_at, int_at, list_at, validate_calibration, score_sample, Normalized,
  ensure_trace_matches_calibration,
}

-- The arguments of one call of `append_record`.
pub record Entry (F : Type 0) : Type 0 where
  pub evidence_id : String
  pub evidence_type : EvidenceType
  pub observed_at : ℤ
  pub payload : Fields F

module _ {F : Type 0} (contract : ComputeContract F) where
  -- the record of `append_record`, at a sequence number
  abbrev pub plain_record :
      (producer_id : String) → (common : Fields F) → (sequence : ℕ) → Entry F → EvidenceRecord F
  plain_record producer common sequence e = record {
    schema_version = "evidence/0.1";
    evidence_id = e.evidence_id;
    evidence_type = e.evidence_type;
    producer_id = producer;
    contract_id = contract.contract_id;
    session_id = contract.session_id;
    observed_at = e.observed_at;
    received_at = e.observed_at;
    sequence_number = pos sequence;
    payload = merge common e.payload;
    nonce = some (
        str_append "recorded:" (
          str_append contract.contract_id (
            str_append ":" (
              str_append contract.session_id
                (str_append ":" (str_append (decimal sequence) (str_append ":" e.evidence_id)))))));
    replay_domain = "north-standard/v0.1";
    authentication_valid = true;
    trust_tier = "T0";
  }

  -- `append_record`
  unfoldable pub recorded_record :
      (producer_id : String)
      → (common : Fields F) → (sequence : ℕ) → Entry F
      → Result (EvidenceRecord F)
  recorded_record producer common sequence e =
      check_record (plain_record producer common sequence e)

  -- The calls of `append_record` in their order, from a sequence number on.
  unfoldable pub append_records :
      (producer_id : String)
      → (common : Fields F) → (sequence : ℕ) → List (Entry F)
      → Result (List (EvidenceRecord F))
  append_records producer common sequence [] = ok []
  append_records producer common sequence (e ∷ es) = do
    r ← recorded_record producer common sequence e
    rs ← append_records producer common (suc sequence) es
    ok (r ∷ rs)

  -- the first three records
  abbrev pub fixed_entries : (first_observed : ℤ) → (device : Fields F) → List (Entry F)
  fixed_entries observed device =
      record {
        evidence_id = "recorded-binding";
        evidence_type = session_binding;
        observed_at = observed;
        payload = fields_of (
            ("bound", boolean true)
            ∷ ("binding_method", str "LOCAL_CAPTURE_ARGUMENTS")
            ∷ ("trust_statement", str "No hardware-rooted session attestation is claimed.")
            ∷ []);
      }
      ∷ record {
        evidence_id = "recorded-runtime";
        evidence_type = runtime_check;
        observed_at = observed;
        payload = fields_of (
            ("usable", boolean true)
            ∷ ("runtime_profile_id", str contract.runtime_profile_id)
            ∷ ("cuda_runtime_version", get "cuda_runtime_version" null device)
            ∷ ("cuda_driver_version", get "cuda_driver_version" null device)
            ∷ []);
      }
      ∷ record {
        evidence_id = "recorded-telemetry";
        evidence_type = telemetry;
        observed_at = observed;
        payload = fields_of (
            ("service_state", str "HEALTHY")
            ∷ ("telemetry_scope", str "CUDA_PROBE_COMPLETED")
            ∷ []);
      }
      ∷ []

module _ {F : Type 0} where
  -- `common_provenance`
  abbrev pub common_provenance : (fingerprint calibration_id : Value F) → Fields F
  common_provenance fingerprint calibration_id = fields_of (
      ("provenance", str recorded_real)
      ∷ ("collector", str "north-standard-cuda-probe/0.1")
      ∷ ("collector_authentication", str "LOCAL_SOFTWARE_ONLY")
      ∷ ("device_fingerprint", fingerprint)
      ∷ ("calibration_id", calibration_id)
      ∷ [])

  -- the payload of a sample's record
  abbrev pub sample_payload : Normalized F → (capture index compute memory : Value F) → Fields F
  sample_payload normalized capture index compute memory = fields_of (
      ("score", float normalized.score)
      ∷ ("timed_out", boolean false)
      ∷ ("score_method", str "MIN_COMPUTE_MEMORY_RATIO_v0.1")
      ∷ ("threshold_status", str "EXPERIMENT_DEFINED")
      ∷ ("capture_id", capture)
      ∷ ("sample_index", index)
      ∷ ("compute_gflops", compute)
      ∷ ("memory_gbps", memory)
      ∷ ("compute_ratio", float normalized.compute_ratio)
      ∷ ("memory_ratio", float normalized.memory_ratio)
      ∷ [])

module _ {F : Type 0} ⦃fl : Float F⦄ ⦃ms : Measure F⦄ where
  -- the record of one sample
  unfoldable pub sample_entry : (trace calibration : Fields F) → Value F → Result (Entry F)
  sample_entry trace calibration v = do
    sample ← as_dict v
    observed ← int_at "observed_at_unix_ms" sample
    normalized ← score_sample sample calibration
    capture ← text_at "capture_id" trace
    index ← int_at "sample_index" sample
    compute ← item "compute_gflops" sample
    memory ← item "memory_gbps" sample
    capture_value ← item "capture_id" trace
    index_value ← item "sample_index" sample
    ok (record {
      evidence_id =
          str_append "recorded-challenge-" (str_append capture (str_append "-" (show_ℤ index)));
      evidence_type = challenge;
      observed_at = seconds_of observed;
      payload = sample_payload normalized capture_value index_value compute memory;
    })

  -- the loop over the traces and their samples
  unfoldable pub sample_entries :
      (calibration : Fields F) → List (Fields F) → Result (List (Entry F))
  sample_entries calibration [] = ok []
  sample_entries calibration (trace ∷ traces) = do
    values ← list_at "samples" trace
    entries ← map_result (sample_entry trace calibration) values
    others ← sample_entries calibration traces
    ok (entries ++ others)

module _ {F : Type 0} ⦃fl : Float F⦄ ⦃ms : Measure F⦄ ⦃hs : Hashing F⦄ where
  -- the checks of one trace
  unfoldable pub check_recorded :
      ComputeContract F → (calibration trace : Fields F) → Result (Unit {0})
  check_recorded contract calibration trace = do
    ensure_trace_matches_calibration trace calibration
    raise_if
        (not (is_text contract.contract_id (get "contract_id" null trace))
          || not (is_text contract.session_id (get "session_id" null trace)))
        (recorded_real_error "trace contract/session does not match replay contract")

  -- `traces[0]["samples"][0]["observed_at_unix_ms"]`, in seconds
  abbrev pub first_observed : Fields F → Result ℤ
  first_observed trace = do
    values ← list_at "samples" trace
    sample ← elim values [ [] ↦ err index_error | v ∷ vs ↦ as_dict v ]
    n ← int_at "observed_at_unix_ms" sample
    ok (seconds_of n)

  unfoldable pub build_recorded_bundle :
      ComputeContract F
      → List (Fields F)
      → (calibration : Fields F) → (producer_id : String) → Result (EvidenceBundle F)
  build_recorded_bundle contract [] calibration producer =
      err (recorded_real_error "at least one recorded trace is required")
  build_recorded_bundle contract (first ∷ others) calibration producer = do
    let traces = first ∷ others
    validate_calibration calibration
    check_each (check_recorded contract calibration) traces
    observed ← first_observed first
    fingerprint ← item "device_fingerprint" calibration
    calibration_id ← item "calibration_id" calibration
    let common = common_provenance fingerprint calibration_id
    device ← as_dict (← item "device" first)
    entries ← sample_entries calibration traces
    made ←
        append_records contract producer common 1
          (fixed_entries contract observed device ++ entries)
    ok (record {
      contract_id = contract.contract_id;
      session_id = contract.session_id;
      records = made;
      schema_version = "evidence-bundle/0.1";
    })
