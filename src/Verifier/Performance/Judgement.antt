-- ===== src/Verifier/Performance/Judgement.antt =====
-- When `_performance_claim` affirms, and when it contradicts.
use north_standard.Base.{
  ℕ, suc, false, List, [], ◌∷◌, ◌≡◌, ◌↔◌, ◌⊎◌, inl, inr, refl, sym, ap, ◌∙◌, arith, length, ok, err,
  All, >>=-eq-ok, map_result, filter_result, filter_result-nil→All, All→filter_result-nil,
  Bool-cases, if◌then◌else◌,
}
use north_standard.Base.Int.{pos, ◌≤ℤ◌, ◌<ℤ◌, ltb_ℤ}
use north_standard.Value.{Float, Fields}
use north_standard.Models.{
  ComputeContract, EvidenceBundle, EvidenceRecord, ClaimResult, affirming, contradicting, unknown,
}
use north_standard.Policy.{VerifierPolicy}
use north_standard.Verifier.Performance.{
  performance_claim, performance_metrics, judge_performance, valid_challenges, score_of, is_breach,
}

module _ {F : Type 0} ⦃fl : Float F⦄ (contract : ComputeContract F) where
  -- How many records score below the contract's floor.
  abbrev pub breach_count : List (EvidenceRecord F) → ℕ
  breach_count [] = 0
  breach_count (r ∷ rs) = elim (is_breach contract r) [
    | ok b ↦ if b then suc (breach_count rs) else breach_count rs
    | err _ ↦ breach_count rs
  ]

  length-breaches :
      (rs : List (EvidenceRecord F)) (bs : List (EvidenceRecord F))
      → filter_result (is_breach contract) rs ≡ ok bs
      → length bs ≡ breach_count rs
  length-breaches [] bs h = ground arith
  length-breaches (r ∷ rs) bs h =
      let (b, e, h') = >>=-eq-ok (is_breach contract r) _ h in
      let (bs', e', h'') = >>=-eq-ok (filter_result (is_breach contract) rs) _ h' in
      ground (arith, length-breaches rs bs' e')

module _ {F : Type 0} ⦃fl : Float F⦄ (contract : ComputeContract F) (bundle : EvidenceBundle F)
    (policy : VerifierPolicy) where
  abbrev pub valid : List (EvidenceRecord F)
  valid = valid_challenges contract bundle

  -- How a call that returned came to its claim.
  pub record IsJudged (claim : ClaimResult F) : Type 0 where
    pub breaches : List (EvidenceRecord F)
    pub measured : Fields F
    pub selected : filter_result (is_breach contract) valid ≡ ok breaches
    pub judged : claim ≡ judge_performance policy valid breaches measured

  pub performance_claim_cases :
      (claim : ClaimResult F)
      → performance_claim contract bundle policy ≡ ok claim
      → ((pos (length valid) <ℤ policy.minimum_valid_challenges) × (claim.state ≡ unknown))
        ⊎ ((policy.minimum_valid_challenges ≤ℤ pos (length valid)) × IsJudged claim)
  unfolding performance_claim
  performance_claim_cases claim h =
      elim (Bool-cases (ltb_ℤ (pos (length valid)) policy.minimum_valid_challenges)) [
        | inl few ↦ inl (ground arith, ground arith)
        | inr enough ↦
            let h' = rw enough at h in
            let (scores, e₁, h₁) = >>=-eq-ok (map_result score_of valid) _ h' in
            let (bs, e₂, h₂) = >>=-eq-ok (filter_result (is_breach contract) valid) _ h₁ in
            let (m, e₃, h₃) =
              >>=-eq-ok (performance_metrics contract (pos (length valid)) (pos (length bs)) scores)
                _ h₂ in
            inr (ground arith, record { breaches = bs; measured = m; selected = e₂; judged = cc })
      ]

  -- Where `_performance_claim` returns and the policy asks for at least one breach, the claim is
  -- affirmed exactly when there are as many valid challenges as the policy asks for and none of them
  -- scores below the contract's floor.
  pub performance_claim_affirms :
      pos 1 ≤ℤ policy.minimum_breach_challenges
      → (claim : ClaimResult F) → performance_claim contract bundle policy ≡ ok claim
      → (claim.state ≡ affirming) ↔ (
          (policy.minimum_valid_challenges ≤ℤ pos (length valid))
          × All (λ r. is_breach contract r ≡ ok false) valid)
  unfolding judge_performance
  performance_claim_affirms some_ claim h = elim (performance_claim_cases claim h) [
    | inl (few, e) ↦ (λ k. cc, λ (m, _). absurd (omega arith))
    | inr (enough, j) ↦ (
      λ k. (
        enough,
        filter_result-nil→All (is_breach contract) valid (
            j.selected
            ∙ ap ok (
                no_more j.breaches j.measured
                  (ap (λ (c : ClaimResult F). c.state) (sym j.judged) ∙ k))),
      ),
      λ (m, clean).
          ap (λ (c : ClaimResult F). c.state) j.judged
          ∙ affirmed j.breaches j.measured j.selected
              (All→filter_result-nil (is_breach contract) valid clean),
    )
  ]
    where
      no_more :
          (bs : List (EvidenceRecord F)) (m : Fields F)
          → (judge_performance policy valid bs m).state ≡ affirming
          → bs ≡ []
      no_more [] m k = refl
      no_more (b ∷ bs) m k = ground arith

      affirmed :
          (bs : List (EvidenceRecord F)) (m : Fields F)
          → filter_result (is_breach contract) valid ≡ ok bs
          → filter_result (is_breach contract) valid ≡ ok []
          → (judge_performance policy valid bs m).state ≡ affirming
      affirmed [] m e e' = ground arith
      affirmed (b ∷ bs) m e e' = cc

  -- Where `_performance_claim` returns, it contradicts exactly when there are as many valid
  -- challenges as the policy asks for and as many of them as it asks for score below the floor.
  pub performance_claim_contradicts :
      (claim : ClaimResult F)
      → performance_claim contract bundle policy ≡ ok claim
      → (claim.state ≡ contradicting) ↔ (
          (policy.minimum_valid_challenges ≤ℤ pos (length valid))
          × (policy.minimum_breach_challenges ≤ℤ pos (breach_count contract valid)))
  unfolding judge_performance
  performance_claim_contradicts claim h = elim (performance_claim_cases claim h) [
    | inl (few, e) ↦ (λ k. cc, λ (m, _). absurd (omega arith))
    | inr (enough, j) ↦
        ground (arith, j.judged, length-breaches contract valid j.breaches j.selected)
  ]
