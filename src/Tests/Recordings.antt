-- ===== src/Tests/Recordings.antt =====
-- The theorems on recorded traces at the sample trace.
use north_standard.Base.{some, none, List, [], ◌∷◌, ◌≡◌, refl, ok, arith, ◌≤◌, ◌↔◌, ◌⊎◌, All, false}
use north_standard.Base.Int.{◌≤ℤ◌, ◌<ℤ◌, ℤ, pos, negsuc, ◌+ℤ◌, ◌-ℤ◌}
use north_standard.Base.Decimal.{decimal}
use north_standard.Canonical.{canonical_sha256, canonical_json, normalize}
use north_standard.Value.{is_hashable, float, integer, str, end, fields_of}
use north_standard.Base.Codes.{sorted_set}
use north_standard.Policy.{default_policy}
use north_standard.Models.{
  check_contract, check_record, ClaimResult, VerifierResult, accept, reject, affirming, challenge,
  bundle_root, bundle_dict, delivery_end,
}
use north_standard.Verifier.{verify, appraise, outcome, result_of}
use north_standard.Verifier.Records.{records_of}
use north_standard.Verifier.Availability.{availability_claim}
use north_standard.Verifier.Performance.{
  performance_claim, performance_metrics, judge_performance, is_breach,
}
use north_standard.Verifier.Performance.Judgement.{breach_count}
use north_standard.Verifier.Binding.{binding_claim}
use north_standard.Verifier.Binding.Nonces.{IsNodup}
use north_standard.Verifier.Runtime.{runtime_claim}
use north_standard.Verifier.Integrity.{
  bundle_integrity_errors, errors_from, sequence_key, window_errors,
}
use north_standard.Recorded.{show_ℤ, required_string, required_int, positive_finite}
use north_standard.Recorded.Trace.{
  validate_trace, check_device, check_challenge, check_samples, check_sample, device_fingerprint,
}
use north_standard.Recorded.Calibration.{
  validate_calibration, compatible_trace_key, build_calibration, ensure_trace_matches_calibration,
  score_sample,
}
use north_standard.Recorded.Contract.{build_recorded_contract, observed_seconds}
use north_standard.Recorded.Protocol.{
  challenge_profile, challenge_fingerprint, bind_calibration_to_challenge,
  validate_challenge_binding,
}
use north_standard.Recorded.Bundle.{
  build_recorded_bundle, check_recorded, sample_entry, sample_entries, append_records,
  recorded_record,
}
use north_standard.Recorded.Trace.Samples.{
  AreSamples, HasDistinctIndices, HasRisingTimes, check_samples_iff,
}
use north_standard.Recorded.Calibration.Matching.{
  IsLowerHexDigest, HasFiniteReferences, build_calibration_matches,
}
use north_standard.Recorded.Contract.Covering.{build_recorded_contract_covers}
use north_standard.Recorded.Protocol.Binding.{IsLongDigest, bind_validates}
use north_standard.Recorded.Bundle.Verdict.{evidence_ids, recorded_verdict}
use north_standard.Samples.{
  zero_digest, Micro, micro_float, sample_hashing, sample_measure, sample_whole, sketch,
}
use north_standard.Tests.Traces.{
  samples, trace, calibration, bound_calibration, parties, recorded_contract, recorded_bundle,
}

abbrev available : ClaimResult Micro
available = record {
  claim_id = "service.availability";
  state = affirming;
  reason_codes = [];
  evidence_refs =
      "recorded-telemetry" ∷ "recorded-challenge-capture-1-0" ∷ "recorded-challenge-capture-1-1"
      ∷ [];
  metrics = end;
}

abbrev performed : ClaimResult Micro
performed = record {
  claim_id = "service.performance";
  state = affirming;
  reason_codes = [];
  evidence_refs = "recorded-challenge-capture-1-0" ∷ "recorded-challenge-capture-1-1" ∷ [];
  metrics = fields_of (
      ("valid_challenges", integer (pos 2))
      ∷ ("breach_challenges", integer (pos 0))
      ∷ ("minimum_score", float (some (pos 947_368)))
      ∷ ("maximum_score", float (some (pos 1_020_408)))
      ∷ ("mean_score", float (some (pos 983_888)))
      ∷ ("contract_floor", float (some (pos 800_000)))
      ∷ ("threshold_status", str "EXPERIMENT_DEFINED")
      ∷ []);
}

trace_valid : validate_trace trace ≡ ok tt
unfolding validate_trace check_device check_challenge check_samples check_sample required_string
    required_int positive_finite
trace_valid = refl

trace_calibrated : build_calibration (trace ∷ []) "calibration-1" none ≡ ok calibration
unfolding build_calibration compatible_trace_key device_fingerprint validate_trace check_device
    check_challenge check_samples check_sample required_string required_int positive_finite
    canonical_sha256 canonical_json normalize sketch
trace_calibrated = refl

trace_contracted : build_recorded_contract (trace ∷ []) parties ≡ ok recorded_contract
unfolding build_recorded_contract observed_seconds check_contract device_fingerprint validate_trace
    check_device check_challenge check_samples check_sample required_string required_int
    positive_finite canonical_sha256 canonical_json normalize sketch ◌+ℤ◌ ◌-ℤ◌
trace_contracted = refl

trace_bundled :
    build_recorded_bundle recorded_contract
      (trace ∷ [])
      calibration
      "north-standard-recorded-harness"
    ≡ ok recorded_bundle
unfolding build_recorded_bundle check_recorded ensure_trace_matches_calibration validate_calibration
    score_sample sample_entry sample_entries append_records recorded_record check_record
    device_fingerprint validate_trace check_device check_challenge check_samples check_sample
    required_string required_int positive_finite canonical_sha256 canonical_json normalize sketch
    show_ℤ decimal
trace_bundled = refl

trace_bound : bind_calibration_to_challenge calibration (trace ∷ []) ≡ ok bound_calibration
unfolding bind_calibration_to_challenge challenge_fingerprint challenge_profile validate_calibration
    validate_trace check_device check_challenge check_samples check_sample required_string
    required_int positive_finite canonical_sha256 canonical_json normalize sketch
trace_bound = refl

check_samples_iff_example :
    (check_samples [] (negsuc 0) samples ≡ ok tt)
    ↔ ((rs : List (ℤ × ℤ)) × AreSamples samples rs × HasDistinctIndices rs × HasRisingTimes rs)
check_samples_iff_example = check_samples_iff samples

digest_is_hex : IsLowerHexDigest Micro sample_hashing
digest_is_hex s = refl

digest_is_long : IsLongDigest Micro sample_hashing
digest_is_long s = refl

references_finite : HasFiniteReferences calibration
references_finite x = (λ e. ground (arith, e), λ e. ground (arith, e))

build_calibration_matches_example :
    (validate_calibration calibration ≡ ok tt)
    × All (λ t. ensure_trace_matches_calibration t calibration ≡ ok tt) (trace ∷ [])
build_calibration_matches_example =
    build_calibration_matches digest_is_hex (trace ∷ []) "calibration-1" none calibration
      trace_calibrated references_finite

abbrev trace_seconds : List ℤ
trace_seconds = pos 1_800_000_001 ∷ pos 1_800_000_002 ∷ []

trace_observed : observed_seconds (trace ∷ []) ≡ ok trace_seconds
unfolding observed_seconds
trace_observed = refl

build_recorded_contract_covers_example :
    All
      (λ t. (recorded_contract.delivery_start ≤ℤ t) × (t <ℤ delivery_end recorded_contract))
      trace_seconds
build_recorded_contract_covers_example =
    build_recorded_contract_covers (trace ∷ []) parties recorded_contract trace_seconds
      trace_contracted trace_observed

bind_validates_example : validate_challenge_binding bound_calibration (trace ∷ []) ≡ ok tt
bind_validates_example =
    bind_validates digest_is_long calibration (trace ∷ []) bound_calibration trace_bound

abbrev replayed : VerifierResult Micro
replayed =
    let policy = default_policy "VERIFIER-v0.1" in
    result_of recorded_contract policy
      (("session.binding", binding_claim recorded_contract recorded_bundle policy)
        ∷ ("service.runtime", runtime_claim recorded_contract recorded_bundle)
        ∷ ("service.availability", available)
        ∷ ("service.performance", performed)
        ∷ [])
      (accept, []) zero_digest

replay_accepted : verify recorded_contract recorded_bundle none ≡ ok replayed
unfolding verify ◌+ℤ◌ ◌-ℤ◌ appraise availability_claim is_hashable performance_claim
    performance_metrics judge_performance binding_claim runtime_claim bundle_root canonical_sha256
    canonical_json sketch normalize bundle_dict outcome bundle_integrity_errors sorted_set decimal
    delivery_end errors_from sequence_key window_errors
replay_accepted = refl

recorded_verdict_example :
    ((replayed.decision ≡ accept) ↔ (
      IsNodup (evidence_ids recorded_bundle.records)
      × All (λ r. is_breach recorded_contract r ≡ ok false) (records_of recorded_bundle challenge)))
    × ((replayed.decision ≡ reject) ↔ (
        ¬ IsNodup (evidence_ids recorded_bundle.records)
        ⊎ (2 ≤ breach_count recorded_contract (records_of recorded_bundle challenge))))
recorded_verdict_example =
    recorded_verdict recorded_contract (trace ∷ []) calibration "north-standard-recorded-harness"
      recorded_bundle replayed trace_bundled replay_accepted refl
