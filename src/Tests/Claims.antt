-- ===== src/Tests/Claims.antt =====
-- The theorems on the single claims at the sample bundles.
use north_standard.Base.{arith, ◌≡◌, ◌↔◌, true, false, refl, All, is_empty, ok, length}
use north_standard.Base.Int.{pos, ◌≤ℤ◌}
use north_standard.Value.{is_hashable}
use north_standard.Models.{affirming, contradicting, runtime_check}
use north_standard.Policy.{default_policy}
use north_standard.Verifier.Records.{bound_records}
use north_standard.Verifier.Binding.{binding_claim}
use north_standard.Verifier.Binding.Affirming.{binding_claim_affirms, IsBinding}
use north_standard.Verifier.Runtime.{runtime_claim}
use north_standard.Verifier.Runtime.Affirming.{runtime_claim_affirms, IsCompatible}
use north_standard.Verifier.Availability.{availability_claim, is_ambiguous}
use north_standard.Verifier.Availability.Judgement.{
  availability_claim_affirms, availability_claim_contradicts, is_blamed, is_served, telemetries,
  probes, challenges,
}
use north_standard.Verifier.Performance.{
  performance_claim, performance_metrics, judge_performance, valid_challenges, is_breach,
}
use north_standard.Verifier.Performance.Judgement.{
  performance_claim_affirms, performance_claim_contradicts, breach_count,
}
use north_standard.Verifier.Integrity.{bundle_integrity_errors}
use north_standard.Verifier.Integrity.Distinct.{AllDiffer, fatal_integrity-empty_iff}
use north_standard.Verifier.Outcome.{fatal_integrity}
use north_standard.Samples.{micro_float}
use north_standard.Tests.Bundles.{
  contract, healthy, throttled, outage, available, unavailable, performed, underperformed,
}

binding_claim_affirms_example :
    ((binding_claim contract healthy (default_policy "VERIFIER-v0.1")).state ≡ affirming)
    ↔ IsBinding contract healthy (default_policy "VERIFIER-v0.1")
binding_claim_affirms_example =
    binding_claim_affirms contract healthy (default_policy "VERIFIER-v0.1")

runtime_claim_affirms_example : ((runtime_claim contract healthy).state ≡ affirming) ↔ (
    (is_empty (bound_records contract healthy runtime_check) ≡ false)
    × All (IsCompatible contract) (bound_records contract healthy runtime_check))
runtime_claim_affirms_example = runtime_claim_affirms contract healthy

healthy-available : availability_claim contract healthy ≡ ok available
unfolding availability_claim is_hashable
healthy-available = refl

outage-unavailable : availability_claim contract outage ≡ ok unavailable
unfolding availability_claim is_hashable
outage-unavailable = refl

availability_claim_affirms_example : (affirming ≡ affirming) ↔ (
    (is_blamed
        (telemetries contract healthy)
        (probes contract healthy)
        (challenges contract healthy)
      ≡ false)
    × All (λ p. is_ambiguous p ≡ ok false) (probes contract healthy)
    × (is_served
          (telemetries contract healthy)
          (probes contract healthy)
          (challenges contract healthy)
        ≡ true))
availability_claim_affirms_example =
    availability_claim_affirms contract healthy available healthy-available

availability_claim_contradicts_example : (contradicting ≡ contradicting) ↔ (
    is_blamed (telemetries contract outage) (probes contract outage) (challenges contract outage)
    ≡ true)
availability_claim_contradicts_example =
    availability_claim_contradicts contract outage unavailable outage-unavailable

healthy-performed :
    performance_claim contract healthy (default_policy "VERIFIER-v0.1") ≡ ok performed
unfolding performance_claim performance_metrics judge_performance
healthy-performed = refl

throttled-underperformed :
    performance_claim contract throttled (default_policy "VERIFIER-v0.1") ≡ ok underperformed
unfolding performance_claim performance_metrics judge_performance
throttled-underperformed = refl

performance_claim_affirms_example : (affirming ≡ affirming) ↔ (
    (pos 2 ≤ℤ pos (length (valid_challenges contract healthy)))
    × All (λ r. is_breach contract r ≡ ok false) (valid_challenges contract healthy))
performance_claim_affirms_example =
    performance_claim_affirms contract healthy (default_policy "VERIFIER-v0.1") (omega arith)
      performed healthy-performed

performance_claim_contradicts_example : (contradicting ≡ contradicting) ↔ (
    (pos 2 ≤ℤ pos (length (valid_challenges contract throttled)))
    × (pos 2 ≤ℤ pos (breach_count contract (valid_challenges contract throttled))))
performance_claim_contradicts_example =
    performance_claim_contradicts contract throttled (default_policy "VERIFIER-v0.1") underperformed
      throttled-underperformed

fatal_integrity-empty_iff_example :
    (is_empty (fatal_integrity (bundle_integrity_errors contract healthy)) ≡ true)
    ↔ AllDiffer healthy.records
fatal_integrity-empty_iff_example = fatal_integrity-empty_iff contract healthy
