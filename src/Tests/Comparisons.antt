-- ===== src/Tests/Comparisons.antt =====
-- The theorems on the comparators at the sample bundles.
use north_standard.Base.{
  arith, ◌≡◌, ◌≢◌, refl, ok, List, [], ◌∷◌, String, ◌↔◌, All, none, Result, err,
}
use north_standard.Base.Int.{◌+ℤ◌, ◌-ℤ◌}
use north_standard.Base.Codes.{sorted_set}
use north_standard.Value.{is_hashable}
use north_standard.Canonical.{canonical_sha256, canonical_json, normalize}
use north_standard.Models.{
  Decision, VerifierResult, accept, inconclusive, check_contract, bundle_root, bundle_dict,
  delivery_end,
}
use north_standard.Policy.{default_policy}
use north_standard.Verifier.{verify, appraise, outcome}
use north_standard.Verifier.Availability.{availability_claim}
use north_standard.Verifier.Performance.{performance_claim, performance_metrics, judge_performance}
use north_standard.Verifier.Binding.{binding_claim}
use north_standard.Verifier.Runtime.{runtime_claim}
use north_standard.Verifier.Integrity.{
  bundle_integrity_errors, errors_from, sequence_key, window_errors,
}
use north_standard.Evaluators.{
  evaluate, evaluate_full, full, b3_challenge_only, ablation_no_binding, ablation_no_telemetry,
  ablation_no_abstention,
}
use north_standard.Evaluators.Baselines.{EvaluationOutcome, baseline_challenge_only, outcome_of}
use north_standard.Evaluators.Abstention.{IsHarmless, no_abstention_decides, no_abstention_accepts}
use north_standard.Evaluators.Challenges.{challenge_only_agrees, full_accept-challenge_only}
use north_standard.Evaluators.NoBinding.{AllAffirmed, no_binding_accepts}
use north_standard.Evaluators.Telemetry.{no_telemetry_never_accepts}
use north_standard.Verifier.Integrity.Distinct.{AllDiffer}
use north_standard.Verifier.Verdict.{mandatory}
use north_standard.Samples.{Micro, micro_float, sample_hashing, sketch}
use north_standard.Tests.Bundles.{contract, healthy, throttled, ambiguous, underperformed}
use north_standard.Tests.Verdicts.{accepted, rejected, healthy-accepted}

-- the value of a call that returned, and else a given one
abbrev value_or : VerifierResult Micro → Result (VerifierResult Micro) → VerifierResult Micro
value_or r (ok result) = result
value_or r (err _) = r

abbrev found : Decision → List String → EvaluationOutcome
found d codes = record { decision = d; reason_codes = codes }

abbrev healthy_outcome : EvaluationOutcome
healthy_outcome = found accept []

healthy_full : evaluate full contract healthy ≡ ok healthy_outcome
unfolding evaluate evaluate_full
healthy_full = ground (arith, healthy-accepted)

abbrev defaulted : EvaluationOutcome
defaulted =
    found accept ("AVAILABILITY_EVIDENCE_CONFLICT" ∷ "ABSTENTION_DISABLED_ACCEPT_DEFAULT" ∷ [])

ambiguous-defaulted : evaluate ablation_no_abstention contract ambiguous ≡ ok defaulted
unfolding evaluate evaluate_full verify ◌+ℤ◌ ◌-ℤ◌ appraise availability_claim is_hashable
    performance_claim performance_metrics judge_performance binding_claim runtime_claim bundle_root
    canonical_sha256 canonical_json sketch normalize bundle_dict outcome bundle_integrity_errors
    sorted_set delivery_end errors_from sequence_key window_errors
ambiguous-defaulted = refl

no_abstention_decides_example : defaulted.decision ≢ inconclusive
no_abstention_decides_example =
    no_abstention_decides contract ambiguous defaulted ambiguous-defaulted

abbrev unsure : VerifierResult Micro
unsure = value_or rejected (verify contract ambiguous none)

ambiguous-unsure : verify contract ambiguous none ≡ ok unsure
unfolding verify ◌+ℤ◌ ◌-ℤ◌ appraise availability_claim is_hashable performance_claim
    performance_metrics judge_performance binding_claim runtime_claim bundle_root canonical_sha256
    canonical_json sketch normalize bundle_dict outcome bundle_integrity_errors sorted_set
    delivery_end errors_from sequence_key window_errors
ambiguous-unsure = refl

no_abstention_accepts_example :
    (defaulted.decision ≡ accept)
    ↔ (AllDiffer ambiguous.records × All (λ c. IsHarmless c.state) (mandatory contract unsure))
no_abstention_accepts_example =
    no_abstention_accepts contract ambiguous unsure defaulted ambiguous-unsure ambiguous-defaulted

throttled-breaches :
    performance_claim contract throttled (default_policy "VERIFIER-v0.1") ≡ ok underperformed
unfolding performance_claim performance_metrics judge_performance
throttled-breaches = refl

challenge_only_agrees_example :
    (o : EvaluationOutcome) × (baseline_challenge_only contract throttled ≡ ok o)
    × (o.decision ≡ Decision.reject)
challenge_only_agrees_example =
    challenge_only_agrees contract throttled underperformed throttled-breaches

full_accept-challenge_only_example :
    evaluate b3_challenge_only contract healthy ≡ ok (outcome_of accept "CHALLENGE_ONLY_PASS")
full_accept-challenge_only_example =
    full_accept-challenge_only contract healthy healthy_outcome healthy_full refl refl

contract-constructed : check_contract contract ≡ ok contract
unfolding check_contract
contract-constructed = refl

no_binding_accepts_example :
    (o : EvaluationOutcome) × (evaluate ablation_no_binding contract healthy ≡ ok o)
    × ((o.decision ≡ accept) ↔ (
        AllDiffer healthy.records
        × AllAffirmed accepted.claims (λ k. k ≢ "session.binding") contract.mandatory_claims))
no_binding_accepts_example =
    no_binding_accepts contract healthy accepted contract-constructed healthy-accepted

abbrev silent : EvaluationOutcome
silent = found inconclusive ("AVAILABILITY_EVIDENCE_INSUFFICIENT" ∷ [])

healthy-silent : evaluate ablation_no_telemetry contract healthy ≡ ok silent
unfolding evaluate evaluate_full verify ◌+ℤ◌ ◌-ℤ◌ appraise availability_claim is_hashable
    performance_claim performance_metrics judge_performance binding_claim runtime_claim bundle_root
    canonical_sha256 canonical_json sketch normalize bundle_dict outcome bundle_integrity_errors
    sorted_set delivery_end errors_from sequence_key window_errors
healthy-silent = refl

no_telemetry_never_accepts_example : silent.decision ≢ accept
no_telemetry_never_accepts_example =
    no_telemetry_never_accepts contract healthy silent refl healthy-silent
