-- ===== src/Evaluators/Full.antt =====
-- The outcome of `_full` is the verifier's.
use north_standard.Base.{◌≡◌, ap, none, ok, >>=-eq-ok, ok-injective}
use north_standard.Value.{Float}
use north_standard.Canonical.{Hashing}
use north_standard.Models.{ComputeContract, EvidenceBundle, VerifierResult}
use north_standard.Verifier.{verify}
use north_standard.Evaluators.{evaluate_full}
use north_standard.Evaluators.Baselines.{EvaluationOutcome}

module _ {F : Type 0} ⦃fl : Float F⦄ ⦃hs : Hashing F⦄ (contract : ComputeContract F)
    (bundle : EvidenceBundle F) where
  pub evaluate_full-verify :
      (o : EvaluationOutcome)
      → evaluate_full contract bundle ≡ ok o
      → (r : VerifierResult F) × (verify contract bundle none ≡ ok r) × (r.decision ≡ o.decision)
  unfolding evaluate_full
  evaluate_full-verify o h =
      let (r, e, h') = >>=-eq-ok (verify contract bundle none) _ h in
      (r, e, ap (λ (x : EvaluationOutcome). x.decision) (ok-injective _ _ h'))
