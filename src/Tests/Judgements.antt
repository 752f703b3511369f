-- ===== src/Tests/Judgements.antt =====
-- The theorems on the decision of `verify` at the sample verdicts.
use north_standard.Base.{none, [], ◌∷◌, ◌≡◌, ◌≢◌, ◌↔◌, ◌⊎◌, arith, true, false, refl, All, is_empty}
use north_standard.Base.Codes.{IsStrictlySorted}
use north_standard.Models.{accept, reject, affirming, contradicting, invalid}
use north_standard.Policy.{default_policy}
use north_standard.Verifier.Acceptance.{verify_accept_iff_supported, IsSupported}
use north_standard.Verifier.Integrity.{bundle_integrity_errors}
use north_standard.Verifier.Integrity.Distinct.{AllDiffer}
use north_standard.Verifier.Outcome.{any_in}
use north_standard.Verifier.Verdict.{
  mandatory, verify_accepts, verify_rejects, verify-IsStrictlySorted, verify_reasons,
  verify_accept_reasons,
}
use north_standard.Samples.{micro_float, sample_hashing}
use north_standard.Tests.Bundles.{contract, healthy, throttled}
use north_standard.Tests.Verdicts.{accepted, rejected, healthy-accepted, throttled-rejected}

verify_accept_iff_supported_example :
    (accepted.decision ≡ accept) ↔ IsSupported contract healthy (default_policy "VERIFIER-v0.1")
verify_accept_iff_supported_example =
    verify_accept_iff_supported contract healthy none accepted healthy-accepted refl (omega arith)

verify_accepts_example :
    (accepted.decision ≡ accept)
    ↔ (AllDiffer healthy.records × All (λ c. c.state ≡ affirming) (mandatory contract accepted))
verify_accepts_example = verify_accepts contract healthy none accepted healthy-accepted

verify_rejects_example : (rejected.decision ≡ reject) ↔ (
    ¬ AllDiffer throttled.records
    ⊎ ((any_in contradicting (mandatory contract rejected) ≡ true)
        ⊎ (any_in invalid (mandatory contract rejected) ≡ true)))
verify_rejects_example = verify_rejects contract throttled none rejected throttled-rejected

verify-IsStrictlySorted_example : IsStrictlySorted ("CHALLENGE_PERFORMANCE_BREACH" ∷ [])
verify-IsStrictlySorted_example =
    verify-IsStrictlySorted contract throttled none rejected throttled-rejected

not_accepted : rejected.decision ≢ accept
not_accepted e = cc e

verify_reasons_example : is_empty rejected.reason_codes ≡ false
verify_reasons_example =
    verify_reasons contract throttled none rejected throttled-rejected not_accepted

verify_accept_reasons_example : [] ≡ bundle_integrity_errors contract healthy
verify_accept_reasons_example =
    verify_accept_reasons contract healthy none accepted healthy-accepted refl
