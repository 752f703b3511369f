-- ===== src/Evaluators/Challenges.antt =====
-- The challenge-only baseline against the verifier.
use north_standard.Base.{
  ◌&&◌, List, [], ◌∷◌, filter, ◌≡◌, refl, sym, ap, ◌∙◌, arith, inl, inr, All→filter_result-nil,
  filter_result, none, ok, str_eq, length,
}
use north_standard.Base.Int.{pos, ◌≤ℤ◌, ◌<ℤ◌}
use north_standard.Value.{Float, Fields}
use north_standard.Canonical.{Hashing}
use north_standard.Models.{
  ComputeContract, EvidenceRecord, EvidenceBundle, ClaimResult, ClaimState, affirming,
  contradicting, unknown, not_evaluated, invalid, challenge, is_type, Decision, accept, reject,
  inconclusive, mandatory_v01_claims,
}
use north_standard.Policy.{default_policy}
use north_standard.Verifier.Records.{is_bound}
use north_standard.Verifier.Performance.{
  performance_claim, judge_performance, valid_challenges, is_scored, is_breach,
}
use north_standard.Verifier.Performance.Judgement.{performance_claim_cases}
use north_standard.Verifier.Acceptance.{verify_accept_iff_supported}
use north_standard.Evaluators.{evaluate, full, b3_challenge_only}
use north_standard.Evaluators.Baselines.{
  EvaluationOutcome, baseline_challenge_only, kept_challenges, judge_challenges, outcome_of,
}
use north_standard.Evaluators.Full.{evaluate_full-verify}

-- The decision that a verdict on one claim alone would take.
abbrev pub decision_from : ClaimState → Decision
decision_from affirming = accept
decision_from contradicting = reject
decision_from unknown = inconclusive
decision_from not_evaluated = inconclusive
decision_from invalid = inconclusive

module _ {F : Type 0} ⦃fl : Float F⦄ (contract : ComputeContract F) where
  kept_valid :
      (rs : List (EvidenceRecord F))
      → filter
          (λ r.
            is_type r.evidence_type challenge
            && r.authentication_valid
            && str_eq r.contract_id contract.contract_id
            && str_eq r.session_id contract.session_id
            && is_scored r)
          rs
        ≡ filter is_scored
            (filter (is_bound contract) (filter (λ r. is_type r.evidence_type challenge) rs))
  kept_valid [] = refl
  kept_valid (r ∷ rs) = ground (arith, kept_valid rs)

module _ {F : Type 0} ⦃fl : Float F⦄ (contract : ComputeContract F)
    (bundle : EvidenceBundle F) where
  kept-valid_challenges : kept_challenges contract bundle ≡ valid_challenges contract bundle
  kept-valid_challenges = kept_valid contract bundle.records

  judged_alike :
      (bs : List (EvidenceRecord F)) (m : Fields F) (claim : ClaimResult F)
      → filter_result (is_breach contract) (valid_challenges contract bundle) ≡ ok bs
      → pos 2 ≤ℤ pos (length (valid_challenges contract bundle))
      → claim
        ≡ judge_performance
            (default_policy contract.verifier_policy_id)
            (valid_challenges contract bundle)
            bs
            m
      → (o : EvaluationOutcome) × (baseline_challenge_only contract bundle ≡ ok o)
        × (o.decision ≡ decision_from claim.state)
  unfolding judge_performance baseline_challenge_only
  judged_alike bs m claim selected enough judged =
      let same = kept-valid_challenges in
      (
        judge_challenges (default_policy contract.verifier_policy_id) bs,
        ground (arith, same, selected, enough),
        ground (arith, judged),
      )

  -- Where `_performance_claim` returns under the default policy, the challenge-only baseline
  -- returns too: it accepts, rejects or abstains as the claim is affirmed, contradicted or open.
  pub challenge_only_agrees :
      (claim : ClaimResult F)
      → performance_claim contract bundle (default_policy contract.verifier_policy_id) ≡ ok claim
      → (o : EvaluationOutcome) × (baseline_challenge_only contract bundle ≡ ok o)
        × (o.decision ≡ decision_from claim.state)
  unfolding baseline_challenge_only
  challenge_only_agrees claim h =
      elim (performance_claim_cases contract bundle (default_policy contract.verifier_policy_id)
        claim h) [
          | inl (few, e) ↦ (
            outcome_of inconclusive "CHALLENGE_ONLY_INSUFFICIENT",
            few_left few,
            ap decision_from (sym e),
          )
          | inr (enough, j) ↦ judged_alike j.breaches j.measured claim j.selected enough j.judged
        ]
    where
      few_left :
          pos (length (valid_challenges contract bundle)) <ℤ pos 2
          → baseline_challenge_only contract bundle
            ≡ ok (outcome_of inconclusive "CHALLENGE_ONLY_INSUFFICIENT")
      few_left h' = let same = kept-valid_challenges in ground (arith, same, h')

module _ {F : Type 0} ⦃fl : Float F⦄ ⦃hs : Hashing F⦄ (contract : ComputeContract F)
    (bundle : EvidenceBundle F) where
  -- For a contract with the four mandatory claims of v0.1, where the verifier accepts, the
  -- challenge-only baseline accepts too.
  pub full_accept-challenge_only :
      (o : EvaluationOutcome)
      → evaluate full contract bundle ≡ ok o
      → o.decision ≡ accept
      → contract.mandatory_claims ≡ mandatory_v01_claims
      → evaluate b3_challenge_only contract bundle ≡ ok (outcome_of accept "CHALLENGE_ONLY_PASS")
  unfolding evaluate baseline_challenge_only
  full_accept-challenge_only o h a v01 =
      let (r, e, d) = evaluate_full-verify contract bundle o h in
      let s = (verify_accept_iff_supported contract bundle none r e v01 (omega arith)).0 (d ∙ a) in
      let none_ =
        All→filter_result-nil (is_breach contract) (valid_challenges contract bundle) s.clean in
      let same = kept-valid_challenges contract bundle in
      let enough = s.challenged in ground (arith, same, none_, enough)
