-- ===== src/Tests/Verdicts.antt =====
-- The verdicts on the sample bundles.
use north_standard.Base.{none, List, [], ◌∷◌, String, ok, ◌≡◌, refl}
use north_standard.Base.Int.{◌+ℤ◌, ◌-ℤ◌}
use north_standard.Base.Codes.{sorted_set}
use north_standard.Base.Decimal.{decimal}
use north_standard.Value.{is_hashable}
use north_standard.Canonical.{canonical_sha256, canonical_json, normalize}
use north_standard.Models.{
  EvidenceBundle, ClaimResult, VerifierResult, Decision, accept, reject, bundle_root, bundle_dict,
  delivery_end,
}
use north_standard.Policy.{default_policy}
use north_standard.Verifier.{verify, appraise, outcome, result_of}
use north_standard.Verifier.Availability.{availability_claim}
use north_standard.Verifier.Performance.{performance_claim, performance_metrics, judge_performance}
use north_standard.Verifier.Binding.{binding_claim}
use north_standard.Verifier.Runtime.{runtime_claim}
use north_standard.Verifier.Integrity.{
  bundle_integrity_errors, errors_from, sequence_key, window_errors,
}
use north_standard.Samples.{Micro, micro_float, sample_hashing, sketch, zero_digest}
use north_standard.Tests.Bundles.{
  contract, healthy, throttled, available, performed, underperformed,
}

-- The verdict of a decision, its reasons and two of the four claims.
abbrev pub verdict :
    EvidenceBundle Micro
    → ClaimResult Micro
    → ClaimResult Micro
    → Decision
    → List String
    → VerifierResult Micro
verdict bundle availability performance decision codes =
    let policy = default_policy "VERIFIER-v0.1" in
    result_of contract policy
      (("session.binding", binding_claim contract bundle policy)
        ∷ ("service.runtime", runtime_claim contract bundle)
        ∷ ("service.availability", availability)
        ∷ ("service.performance", performance)
        ∷ [])
      (decision, codes) zero_digest

abbrev pub accepted : VerifierResult Micro
accepted = verdict healthy available performed accept []

abbrev pub rejected : VerifierResult Micro
rejected = verdict throttled available underperformed reject ("CHALLENGE_PERFORMANCE_BREACH" ∷ [])

pub healthy-accepted : verify contract healthy none ≡ ok accepted
unfolding verify ◌+ℤ◌ ◌-ℤ◌ appraise availability_claim is_hashable performance_claim
    performance_metrics judge_performance binding_claim runtime_claim bundle_root canonical_sha256
    canonical_json sketch normalize bundle_dict outcome bundle_integrity_errors sorted_set decimal
    delivery_end errors_from sequence_key window_errors
healthy-accepted = refl

pub throttled-rejected : verify contract throttled none ≡ ok rejected
unfolding verify ◌+ℤ◌ ◌-ℤ◌ appraise availability_claim is_hashable performance_claim
    performance_metrics judge_performance binding_claim runtime_claim bundle_root canonical_sha256
    canonical_json sketch normalize bundle_dict outcome bundle_integrity_errors sorted_set decimal
    delivery_end errors_from sequence_key window_errors
throttled-rejected = refl
