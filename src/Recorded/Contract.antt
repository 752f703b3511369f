-- ===== src/Recorded/Contract.antt =====
-- src/north_standard/recorded_real.py, `build_recorded_contract`.
pub mod Covering
use north_standard.Base.{
  ℕ, String, Bool, true, not, any, List, [], ◌∷◌, Result, ok, err, recorded_real_error,
  assertion_error, ◌>>=◌, ◌>>◌, raise_if, map_result, check_each, if◌then◌else◌,
}
use north_standard.Base.Int.{ℤ, pos, ◌+ℤ◌, ◌-ℤ◌, ltb_ℤ}
use north_standard.Value.{Float, Fields}
use north_standard.Canonical.{Hashing}
use north_standard.Models.{ComputeContract, check_contract, mandatory_v01_claims}
use north_standard.Verifier.Binding.{distinct}
use north_standard.Recorded.{Measure, seconds_of}
use north_standard.Recorded.Trace.{validate_trace, device_fingerprint}
use north_standard.Recorded.Calibration.{
  text_at, int_at, samples_of, max_of_ints, min_of_ints, has_distinct,
}

-- `next(iter(s))` of the set of the texts
abbrev pub first_of : List String → Result String
first_of [] = err assertion_error
first_of (x ∷ xs) = ok x

-- The keyword arguments of `build_recorded_contract`.
pub record Parties (F : Type 0) : Type 0 where
  pub performance_min_score : F
  pub provider_id : String
  pub buyer_id : String
  pub verifier_policy_id : String
  pub settlement_policy_id : String

-- `max(60, n)`
abbrev pub at_least_60 : ℤ → ℤ
at_least_60 n = if ltb_ℤ (pos 60) n then n else pos 60

module _ {F : Type 0} where
  -- `[int(sample["observed_at_unix_ms"]) // 1000 for trace in traces for sample in trace["samples"]]`
  unfoldable pub observed_seconds : List (Fields F) → Result (List ℤ)
  observed_seconds traces = do
    samples ← samples_of traces
    map_result (λ s. int_at "observed_at_unix_ms" s >>= λ n. ok (seconds_of n)) samples

module _ {F : Type 0} ⦃fl : Float F⦄ ⦃ms : Measure F⦄ ⦃hs : Hashing F⦄ where
  unfoldable pub build_recorded_contract : List (Fields F) → Parties F → Result (ComputeContract F)
  build_recorded_contract [] parties = err (recorded_real_error "at least one trace is required")
  build_recorded_contract (first ∷ others) parties = do
    let traces = first ∷ others
    check_each validate_trace traces
    contract_ids ← map_result (text_at "contract_id") traces
    session_ids ← map_result (text_at "session_id") traces
    runtime_profiles ← map_result (text_at "runtime_profile_id") traces
    benchmark_profiles ← map_result (text_at "benchmark_profile_id") traces
    fingerprints ← map_result device_fingerprint traces
    raise_if
        (any (λ ids. not (has_distinct 1 ids))
          (contract_ids ∷ session_ids ∷ runtime_profiles ∷ benchmark_profiles ∷ fingerprints ∷ []))
        (recorded_real_error "recorded replay traces must share contract/session/device/profile")
    seconds ← observed_seconds traces
    start ← min_of_ints seconds
    last ← max_of_ints seconds
    contract ← first_of contract_ids
    session ← first_of session_ids
    runtime ← first_of runtime_profiles
    benchmark ← first_of benchmark_profiles
    check_contract (record {
      schema_version = "compute-contract/0.1";
      contract_id = contract;
      contract_class_id = "RECORDED-ACCESSIBLE-GPU-v0.1";
      provider_id = parties.provider_id;
      buyer_id = parties.buyer_id;
      session_id = session;
      runtime_profile_id = runtime;
      delivery_start = start;
      duration_seconds = at_least_60 (last -ℤ start +ℤ pos 1);
      sla_policy_id = "SLA-RECORDED-RESEARCH-v0.1";
      benchmark_profile_id = benchmark;
      performance_min_score = parties.performance_min_score;
      verifier_policy_id = parties.verifier_policy_id;
      settlement_policy_id = parties.settlement_policy_id;
      evidence_schema_version = "evidence/0.1";
      mandatory_claims = mandatory_v01_claims;
      research_mode = true;
    })
