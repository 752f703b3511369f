-- ===== src/Verifier/Acceptance.antt =====
-- What an accepting verdict says of the evidence.
use mathlib.Core.Path.{subst}
use north_standard.Base.{
  String, List, [], ◌∷◌, ◌≡◌, ◌↔◌, sym, true, false, Option, All, is_empty, length, ok, >>=-eq-ok,
  ok-injective,
}
use north_standard.Base.Int.{pos, ◌≤ℤ◌}
use north_standard.Value.{Float}
use north_standard.Canonical.{Hashing}
use north_standard.Models.{
  ComputeContract, EvidenceBundle, EvidenceRecord, ClaimResult, VerifierResult,
  mandatory_v01_claims, affirming, accept, runtime_check, telemetry, external_probe, challenge,
}
use north_standard.Policy.{VerifierPolicy}
use north_standard.Verifier.{verify, appraise, policy_or_default}
use north_standard.Verifier.Records.{bound_records}
use north_standard.Verifier.Binding.{binding_claim}
use north_standard.Verifier.Binding.Affirming.{IsBinding, binding_claim_affirms}
use north_standard.Verifier.Runtime.{runtime_claim}
use north_standard.Verifier.Runtime.Affirming.{IsCompatible, runtime_claim_affirms}
use north_standard.Verifier.Availability.{availability_claim, is_ambiguous}
use north_standard.Verifier.Availability.Judgement.{
  is_blamed, is_served, availability_claim_affirms,
}
use north_standard.Verifier.Performance.{performance_claim, valid_challenges, is_breach}
use north_standard.Verifier.Performance.Judgement.{performance_claim_affirms}
use north_standard.Verifier.Integrity.Distinct.{AllDiffer}
use north_standard.Verifier.Outcome.{select_claims}
use north_standard.Verifier.Verdict.{verify-IsVerified, verify_accepts}

module _ {F : Type 0} ⦃fl : Float F⦄ (contract : ComputeContract F) (bundle : EvidenceBundle F)
    (policy : VerifierPolicy) where
  abbrev bound_telemetry : List (EvidenceRecord F)
  bound_telemetry = bound_records contract bundle telemetry

  abbrev bound_probes : List (EvidenceRecord F)
  bound_probes = bound_records contract bundle external_probe

  abbrev bound_challenges : List (EvidenceRecord F)
  bound_challenges = bound_records contract bundle challenge

  -- The evidence supports every claim of the contract.
  pub record IsSupported : Type 0 where
    pub differ : AllDiffer bundle.records
    pub binding : IsBinding contract bundle policy
    pub has_runtime : is_empty (bound_records contract bundle runtime_check) ≡ false
    pub compatible : All (IsCompatible contract) (bound_records contract bundle runtime_check)
    pub not_blamed : is_blamed bound_telemetry bound_probes bound_challenges ≡ false
    pub attributed : All (λ p. is_ambiguous p ≡ ok false) bound_probes
    pub served : is_served bound_telemetry bound_probes bound_challenges ≡ true
    pub challenged :
        policy.minimum_valid_challenges ≤ℤ pos (length (valid_challenges contract bundle))
    pub clean : All (λ r. is_breach contract r ≡ ok false) (valid_challenges contract bundle)

  -- the claims, each with the call that made it
  pub record IsAppraised (claims : List (String × ClaimResult F)) : Type 0 where
    pub availability : ClaimResult F
    pub performance : ClaimResult F
    pub by_availability : availability_claim contract bundle ≡ ok availability
    pub by_performance : performance_claim contract bundle policy ≡ ok performance
    pub all_claims : claims ≡ (
        ("session.binding", binding_claim contract bundle policy)
        ∷ ("service.runtime", runtime_claim contract bundle)
        ∷ ("service.availability", availability)
        ∷ ("service.performance", performance)
        ∷ [])

  pub appraise-IsAppraised :
      (claims : List (String × ClaimResult F))
      → appraise contract bundle policy ≡ ok claims
      → IsAppraised claims
  unfolding appraise
  appraise-IsAppraised claims h =
      let (a, e₁, h₁) = >>=-eq-ok (availability_claim contract bundle) _ h in
      let (p, e₂, h₂) = >>=-eq-ok (performance_claim contract bundle policy) _ h₁ in
      record {
        availability = a;
        performance = p;
        by_availability = e₁;
        by_performance = e₂;
        all_claims = sym (ok-injective _ _ h₂);
      }

  supported :
      (claims : List (String × ClaimResult F))
      → IsAppraised claims
      → pos 1 ≤ℤ policy.minimum_breach_challenges
      → AllDiffer bundle.records
      → All (λ c. c.state ≡ affirming) (select_claims mandatory_v01_claims claims)
      → IsSupported
  supported claims ap_ some_ d h =
      let (b, (r, (a, (p, _)))) =
        subst (λ cs. All (λ c. c.state ≡ affirming) (select_claims mandatory_v01_claims cs))
          ap_.all_claims h in
      let runtime = (runtime_claim_affirms contract bundle).0 r in
      let available =
        (availability_claim_affirms contract bundle ap_.availability ap_.by_availability).0 a in
      let performed =
        (performance_claim_affirms contract bundle policy some_ ap_.performance
            ap_.by_performance).0
          p in
      record {
        differ = d;
        binding = (binding_claim_affirms contract bundle policy).0 b;
        has_runtime = runtime.0;
        compatible = runtime.1;
        not_blamed = available.0;
        attributed = available.1;
        served = available.2;
        challenged = performed.0;
        clean = performed.1;
      }

  sufficient :
      (claims : List (String × ClaimResult F))
      → IsAppraised claims
      → pos 1 ≤ℤ policy.minimum_breach_challenges
      → IsSupported
      → All (λ c. c.state ≡ affirming) (select_claims mandatory_v01_claims claims)
  sufficient claims ap_ some_ s =
      subst (λ cs. All (λ c. c.state ≡ affirming) (select_claims mandatory_v01_claims cs))
        (sym ap_.all_claims)
        (
          (binding_claim_affirms contract bundle policy).1 s.binding,
          (
            (runtime_claim_affirms contract bundle).1 (s.has_runtime, s.compatible),
            (
              (availability_claim_affirms contract bundle ap_.availability ap_.by_availability).1
                  (s.not_blamed, s.attributed, s.served),
              (
                (performance_claim_affirms contract bundle policy some_ ap_.performance
                      ap_.by_performance).1
                    (s.challenged, s.clean),
                tt,
              ),
            ),
          ),
        )

-- For a contract with the four mandatory claims of v0.1, and a policy that asks for at least one
-- breach, a call of `verify` that returns accepts exactly when the evidence supports the contract:
-- the records differ; the bundle is bound to the session; the bound runtime records, of which there
-- is one, report a usable runtime of the agreed profile; no failure of the provider is corroborated,
-- no bound probe is an unattributed failure and the service was seen working; and there are enough
-- valid challenges, none of which scores below the floor.
pub verify_accept_iff_supported :
    {F : Type 0} ⦃fl : Float F⦄ ⦃hs : Hashing F⦄ (contract : ComputeContract F)
    (bundle : EvidenceBundle F) (given : Option VerifierPolicy) (result : VerifierResult F)
    → verify contract bundle given ≡ ok result
    → contract.mandatory_claims ≡ mandatory_v01_claims
    → pos 1 ≤ℤ (policy_or_default contract given).minimum_breach_challenges
    → (result.decision ≡ accept) ↔ IsSupported contract bundle (policy_or_default contract given)
verify_accept_iff_supported contract bundle given result verified v01 some_ =
    let policy = policy_or_default contract given in
    let run = verify-IsVerified contract bundle given result verified in
    let appraised = appraise-IsAppraised contract bundle policy result.claims run.appraised in
    let (to, from) = verify_accepts contract bundle given result verified in
    let AllIn =
      λ (ids : List String). All (λ c. c.state ≡ affirming) (select_claims ids result.claims) in
    (
      λ e.
          supported contract bundle policy result.claims appraised some_ (to e).0
            (subst AllIn v01 (to e).1),
      λ s. from (
        s.differ,
        subst AllIn (sym v01) (sufficient contract bundle policy result.claims appraised some_ s),
      ),
    )
