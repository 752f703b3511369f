-- ===== src/Evaluators/Abstention.antt =====
-- The ablation without abstention against the verifier.
use north_standard.Base.{
  String, List, [], ◌∷◌, true, false, ◌≡◌, ◌≢◌, ◌↔◌, sym, ◌∙◌, ap, none, ok, >>=-eq-ok,
  ok-injective, arith, All, is_empty,
}
use north_standard.Value.{Float}
use north_standard.Canonical.{Hashing}
use north_standard.Models.{
  ComputeContract, EvidenceBundle, ClaimResult, ClaimState, VerifierResult, contradicting, invalid,
  affirming, unknown, not_evaluated, is_state, accept, reject, inconclusive,
}
use north_standard.Verifier.{verify, outcome}
use north_standard.Verifier.Integrity.{bundle_integrity_errors}
use north_standard.Verifier.Integrity.Distinct.{AllDiffer, fatal_integrity-empty_iff}
use north_standard.Verifier.Outcome.{fatal_integrity, any_in, decide}
use north_standard.Verifier.Verdict.{mandatory, verify-IsVerified}
use north_standard.Evaluators.{evaluate, evaluate_full, ablation_no_abstention, without_abstention}
use north_standard.Evaluators.Baselines.{EvaluationOutcome}
use north_standard.Evaluators.Full.{evaluate_full-verify}

-- a state that does not speak against the provider
abbrev pub IsHarmless : ClaimState → Type 0
IsHarmless s = (s ≢ contradicting) × (s ≢ invalid)

IsHarmless-iff :
    (s : ClaimState)
    → ((is_state s contradicting ≡ false) × (is_state s invalid ≡ false)) ↔ IsHarmless s
IsHarmless-iff affirming = ground arith
IsHarmless-iff contradicting = ground arith
IsHarmless-iff unknown = ground arith
IsHarmless-iff not_evaluated = ground arith
IsHarmless-iff invalid = ground arith

accept-cases :
    (o : EvaluationOutcome) → ((without_abstention o).decision ≡ accept) ↔ (o.decision ≢ reject)
accept-cases o = ground arith

module _ {F : Type 0} where
  none_against :
      (cs : List (ClaimResult F))
      → ((any_in contradicting cs ≡ false) × (any_in invalid cs ≡ false))
        ↔ All (λ c. IsHarmless c.state) cs
  none_against [] = ground arith
  none_against (c ∷ cs) =
      let (to, from) = none_against cs in
      let (ours, theirs) = IsHarmless-iff c.state in ground arith

  decide-not_reject :
      (fatal : List String) (cs : List (ClaimResult F))
      → ((decide fatal cs).0 ≢ reject)
        ↔ ((is_empty fatal ≡ true) × All (λ c. IsHarmless c.state) cs)
  unfolding decide
  decide-not_reject fatal cs = let (to, from) = none_against cs in ground arith

module _ {F : Type 0} ⦃fl : Float F⦄ ⦃hs : Hashing F⦄ (contract : ComputeContract F)
    (bundle : EvidenceBundle F) where
  -- Without abstention, an evaluation that returns is never inconclusive.
  pub no_abstention_decides :
      (o : EvaluationOutcome)
      → evaluate ablation_no_abstention contract bundle ≡ ok o
      → o.decision ≢ inconclusive
  unfolding evaluate
  no_abstention_decides o h =
      let (f, e, h') = >>=-eq-ok (evaluate_full contract bundle) _ h in λ k. ground arith

  -- Where the verifier and the evaluation without abstention return, the latter accepts exactly when no
  -- two records of the bundle repeat an evidence identifier, or the text "producer:session" with a
  -- sequence number, and no mandatory claim that the verifier knows is contradicted or invalid.
  pub no_abstention_accepts :
      (r : VerifierResult F) (o : EvaluationOutcome)
      → verify contract bundle none ≡ ok r
      → evaluate ablation_no_abstention contract bundle ≡ ok o
      → (o.decision ≡ accept)
        ↔ (AllDiffer bundle.records × All (λ c. IsHarmless c.state) (mandatory contract r))
  unfolding evaluate outcome
  no_abstention_accepts r o v h =
      let (f, e, h') = >>=-eq-ok (evaluate_full contract bundle) _ h in
      let (s, v', d) = evaluate_full-verify contract bundle f e in
      let same = ok-injective _ _ (sym v ∙ v') in
      let run = verify-IsVerified contract bundle none r v in
      let (clean, differ) = fatal_integrity-empty_iff contract bundle in
      let (to, from) =
        decide-not_reject (fatal_integrity (bundle_integrity_errors contract bundle))
          (mandatory contract r) in
      let decided = sym run.decided ∙ ap (λ (x : VerifierResult F). x.decision) same ∙ d in
      let settled = ap (λ (x : EvaluationOutcome). x.decision) (ok-injective _ _ h') in
      let (allow, forbid) = accept-cases f in
      (
        λ k. let (c, a) = to (λ q. allow (settled ∙ k) (sym decided ∙ q)) in (clean c, a),
        λ (c, a). sym settled ∙ forbid (λ q. from (differ c, a) (decided ∙ q)),
      )
