-- ===== src/Verifier/Counting.antt =====
-- The verdict on evidence that leaves only the scores of the challenges open.
use mathlib.Core.Path.{subst}
use north_standard.Base.{
  String, List, [], ◌∷◌, ◌≡◌, ◌↔◌, ◌⊎◌, inl, inr, refl, sym, arith, true, false, Option, All,
  is_empty, length, ok,
}
use north_standard.Base.Int.{pos, ◌≤ℤ◌}
use north_standard.Value.{Float}
use north_standard.Canonical.{Hashing}
use north_standard.Models.{
  ComputeContract, EvidenceBundle, ClaimResult, VerifierResult, mandatory_v01_claims, affirming,
  contradicting, invalid, is_state, is_state_iff, accept, reject, runtime_check, telemetry,
  external_probe, challenge,
}
use north_standard.Policy.{VerifierPolicy}
use north_standard.Verifier.{verify, policy_or_default}
use north_standard.Verifier.Records.{bound_records}
use north_standard.Verifier.Binding.{binding_claim}
use north_standard.Verifier.Binding.Affirming.{IsBinding, binding_claim_affirms}
use north_standard.Verifier.Runtime.{runtime_claim}
use north_standard.Verifier.Runtime.Affirming.{IsCompatible, runtime_claim_affirms}
use north_standard.Verifier.Availability.{is_ambiguous}
use north_standard.Verifier.Availability.Judgement.{
  is_blamed, is_served, availability_claim_affirms,
}
use north_standard.Verifier.Performance.{
  judge_performance, performance_claim, valid_challenges, is_breach,
}
use north_standard.Verifier.Performance.Judgement.{
  breach_count, performance_claim_contradicts, performance_claim_cases,
}
use north_standard.Verifier.Integrity.Distinct.{AllDiffer}
use north_standard.Verifier.Outcome.{select_claims, any_in}
use north_standard.Verifier.Verdict.{verify-IsVerified, verify_rejects}
use north_standard.Verifier.Acceptance.{
  IsAppraised, appraise-IsAppraised, IsSupported, verify_accept_iff_supported,
}

-- The evidence supports every claim but that on the performance, and has as many valid challenges as
-- the policy asks for.
pub record IsMeasured {F : Type 0} ⦃fl : Float F⦄ (contract : ComputeContract F)
    (bundle : EvidenceBundle F) (policy : VerifierPolicy) : Type 0 where
  pub binding : IsBinding contract bundle policy
  pub has_runtime : is_empty (bound_records contract bundle runtime_check) ≡ false
  pub compatible : All (IsCompatible contract) (bound_records contract bundle runtime_check)
  pub not_blamed :
      is_blamed
        (bound_records contract bundle telemetry)
        (bound_records contract bundle external_probe)
        (bound_records contract bundle challenge)
      ≡ false
  pub attributed :
      All (λ p. is_ambiguous p ≡ ok false) (bound_records contract bundle external_probe)
  pub served :
      is_served
        (bound_records contract bundle telemetry)
        (bound_records contract bundle external_probe)
        (bound_records contract bundle challenge)
      ≡ true
  pub challenged :
      policy.minimum_valid_challenges ≤ℤ pos (length (valid_challenges contract bundle))

four_claims :
    {F : Type 0} (b r a p : ClaimResult F)
    → b.state ≡ affirming
    → r.state ≡ affirming
    → a.state ≡ affirming
    → is_state p.state invalid ≡ false
    → ((any_in contradicting (b ∷ r ∷ a ∷ p ∷ []) ≡ true)
        ⊎ (any_in invalid (b ∷ r ∷ a ∷ p ∷ []) ≡ true))
      ↔ (p.state ≡ contradicting)
four_claims b r a p hb hr ha hp = ground (arith, is_state_iff p.state contradicting)

module _ {F : Type 0} ⦃fl : Float F⦄ (contract : ComputeContract F) (bundle : EvidenceBundle F)
    (policy : VerifierPolicy) (m : IsMeasured contract bundle policy) where
  supported :
      AllDiffer bundle.records
      → All (λ r. is_breach contract r ≡ ok false) (valid_challenges contract bundle)
      → IsSupported contract bundle policy
  supported d c = record {
    differ = d;
    binding = m.binding;
    has_runtime = m.has_runtime;
    compatible = m.compatible;
    not_blamed = m.not_blamed;
    attributed = m.attributed;
    served = m.served;
    challenged = m.challenged;
    clean = c;
  }

  never_invalid :
      (claim : ClaimResult F)
      → performance_claim contract bundle policy ≡ ok claim
      → is_state claim.state invalid ≡ false
  unfolding judge_performance
  never_invalid claim h = elim (performance_claim_cases contract bundle policy claim h) [
    | inl (_, e) ↦ rw e refl
    | inr (_, j) ↦ rw j.judged (ground arith)
  ]

  -- A claim contradicts, or is invalid, exactly when there are as many breaches as the policy asks for.
  breached :
      (claims : List (String × ClaimResult F))
      → IsAppraised contract bundle policy claims
      → ((any_in contradicting (select_claims mandatory_v01_claims claims) ≡ true)
          ⊎ (any_in invalid (select_claims mandatory_v01_claims claims) ≡ true))
        ↔ (policy.minimum_breach_challenges
            ≤ℤ pos (breach_count contract (valid_challenges contract bundle)))
  breached claims ap_ =
      let b = (binding_claim_affirms contract bundle policy).1 m.binding in
      let r = (runtime_claim_affirms contract bundle).1 (m.has_runtime, m.compatible) in
      let a =
        (availability_claim_affirms contract bundle ap_.availability ap_.by_availability).1
          (m.not_blamed, m.attributed, m.served) in
      let (to, from) =
        performance_claim_contradicts contract bundle policy ap_.performance ap_.by_performance in
      let enough = m.challenged in
      let (to_four, from_four) =
        four_claims (binding_claim contract bundle policy) (runtime_claim contract bundle)
          ap_.availability ap_.performance b r a
          (never_invalid ap_.performance ap_.by_performance) in
      rw ap_.all_claims (λ s. (to (to_four s)).1, λ n. from_four (from (enough, n)))

-- Where the evidence supports every claim but that on the performance and has enough valid
-- challenges, a call of `verify` for the four mandatory claims of v0.1 that returns accepts exactly
-- when no two records repeat each other and no valid challenge scores below the floor; and it
-- rejects exactly when two records do or as many challenges as the policy asks for score below it.
pub measured_verdict :
    {F : Type 0} ⦃fl : Float F⦄ ⦃hs : Hashing F⦄ (contract : ComputeContract F)
    (bundle : EvidenceBundle F) (given : Option VerifierPolicy) (result : VerifierResult F)
    → verify contract bundle given ≡ ok result
    → contract.mandatory_claims ≡ mandatory_v01_claims
    → pos 1 ≤ℤ (policy_or_default contract given).minimum_breach_challenges
    → IsMeasured contract bundle (policy_or_default contract given)
    → ((result.decision ≡ accept) ↔ (
        AllDiffer bundle.records
        × All (λ r. is_breach contract r ≡ ok false) (valid_challenges contract bundle)))
      × ((result.decision ≡ reject) ↔ (
          ¬ AllDiffer bundle.records
          ⊎ ((policy_or_default contract given).minimum_breach_challenges
              ≤ℤ pos (breach_count contract (valid_challenges contract bundle)))))
measured_verdict contract bundle given result verified v01 some_ m =
    let policy = policy_or_default contract given in
    let run = verify-IsVerified contract bundle given result verified in
    let appraised = appraise-IsAppraised contract bundle policy result.claims run.appraised in
    let (to, from) = verify_accept_iff_supported contract bundle given result verified v01 some_ in
    let (to_reject, from_reject) = verify_rejects contract bundle given result verified in
    let (to_breaches, from_breaches) = breached contract bundle policy m result.claims appraised in
    let Contradicted = λ (ids : List String).
      (any_in contradicting (select_claims ids result.claims) ≡ true)
      ⊎ (any_in invalid (select_claims ids result.claims) ≡ true) in
    (
      (λ e. ((to e).differ, (to e).clean), λ (d, c). from (supported contract bundle policy m d c)),
      (
        λ e. elim (to_reject e) [
          | inl repeated ↦ inl repeated
          | inr s ↦ inr (to_breaches (subst Contradicted v01 s))
        ],
        λ s. from_reject (elim s [
          | inl repeated ↦ inl repeated
          | inr n ↦ inr (subst Contradicted (sym v01) (from_breaches n))
        ]),
      ),
    )
