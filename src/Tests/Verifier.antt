-- ===== src/Tests/Verifier.antt =====
-- The verifier on the scenarios of src/north_standard/simulator.py.
use north_standard.Base.{String, none, List, [], ◌∷◌, Result, ok, ◌>>=◌, ◌≡◌, refl}
use north_standard.Models.{
  Decision, accept, reject, inconclusive, check_contract, check_record, bundle_root, bundle_dict,
  delivery_end,
}
use north_standard.Samples.{Micro, micro_float, sample_hashing, sketch}
use north_standard.Base.Int.{◌+ℤ◌, ◌-ℤ◌}
use north_standard.Base.Codes.{sorted_set}
use north_standard.Base.Decimal.{decimal}
use north_standard.Value.{is_hashable}
use north_standard.Canonical.{canonical_sha256, canonical_json, normalize}
use north_standard.Verifier.{verify, appraise, outcome}
use north_standard.Verifier.Availability.{availability_claim}
use north_standard.Verifier.Performance.{performance_claim, performance_metrics, judge_performance}
use north_standard.Verifier.Binding.{binding_claim}
use north_standard.Verifier.Runtime.{runtime_claim}
use north_standard.Verifier.Integrity.{
  bundle_integrity_errors, errors_from, sequence_key, window_errors,
}
use north_standard.Simulator.{
  Scenario, healthy_service, replayed_evidence, constant_throttle, ambiguous_network_failure,
  simulate_scenario,
}

-- `verify(*simulate_scenario(scenario))`, as far as the decision and its reasons
run : Scenario → Result (Decision × List String)
unfolding verify simulate_scenario check_contract check_record ◌+ℤ◌ ◌-ℤ◌ appraise availability_claim
    is_hashable performance_claim performance_metrics judge_performance binding_claim runtime_claim
    bundle_root canonical_sha256 canonical_json sketch normalize bundle_dict outcome
    bundle_integrity_errors sorted_set decimal delivery_end errors_from sequence_key window_errors
run scenario = do
  (contract, bundle) ← simulate_scenario {F = Micro} scenario none
  result ← verify contract bundle none
  ok (result.decision, result.reason_codes)

run-healthy : run healthy_service ≡ ok (accept, [])
unfolding run
run-healthy = refl

run-replayed : run replayed_evidence ≡ ok (reject, "SESSION_ID_MISMATCH" ∷ [])
unfolding run
run-replayed = refl

run-throttle : run constant_throttle ≡ ok (reject, "CHALLENGE_PERFORMANCE_BREACH" ∷ [])
unfolding run
run-throttle = refl

run-ambiguous :
    run ambiguous_network_failure ≡ ok (inconclusive, "AVAILABILITY_EVIDENCE_CONFLICT" ∷ [])
unfolding run
run-ambiguous = refl
