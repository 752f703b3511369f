-- ===== src/Tests/Decisions.antt =====
-- The abstract decision at the sample verdict.
use north_standard.Base.{◌≡◌, none, not, is_empty}
use north_standard.Verifier.Integrity.{bundle_integrity_errors}
use north_standard.Verifier.Outcome.{fatal_integrity}
use north_standard.Verifier.Outcome.Worst.{settle, worst, verify_refines_settle}
use north_standard.Verifier.Verdict.{mandatory}
use north_standard.Samples.{micro_float, sample_hashing}
use north_standard.Tests.Bundles.{contract, throttled}
use north_standard.Tests.Verdicts.{rejected, throttled-rejected}

verify_refines_settle_example :
    rejected.decision
    ≡ settle
        (not (is_empty (fatal_integrity (bundle_integrity_errors contract throttled))))
        (worst (mandatory contract rejected))
verify_refines_settle_example =
    verify_refines_settle contract throttled none rejected throttled-rejected
