-- ===== src/Verifier/Reasons.antt =====
-- Every claim of `verify` was evaluated, and gives a reason code unless it affirms.
use mathlib.Core.Path.{subst}
use mathlib.Core.Option.{some-injective}
use north_standard.Base.{
  String, List, [], ◌∷◌, ◌≡◌, some, All, arith, ok, >>=-eq-ok, inl, inr, Bool-cases, Option-cases,
  str_eq, ok-injective,
}
use north_standard.Value.{Float, Fields}
use north_standard.Models.{ComputeContract, EvidenceBundle, EvidenceRecord, ClaimResult}
use north_standard.Policy.{VerifierPolicy}
use north_standard.Verifier.{appraise}
use north_standard.Verifier.Binding.{binding_claim}
use north_standard.Verifier.Runtime.{runtime_claim}
use north_standard.Verifier.Availability.{availability_claim}
use north_standard.Verifier.Performance.{performance_claim, judge_performance}
use north_standard.Verifier.Outcome.{find_claim, select_claims}
use north_standard.Verifier.Outcome.Deciding.{IsReasoned}

module _ {F : Type 0} ⦃fl : Float F⦄ (contract : ComputeContract F) (bundle : EvidenceBundle F)
    (policy : VerifierPolicy) where
  binding_claim-IsReasoned : IsReasoned (binding_claim contract bundle policy)
  unfolding binding_claim
  binding_claim-IsReasoned = ground arith

  runtime_claim-IsReasoned : IsReasoned (runtime_claim contract bundle)
  unfolding runtime_claim
  runtime_claim-IsReasoned = ground arith

  availability_claim-IsReasoned :
      (claim : ClaimResult F) → availability_claim contract bundle ≡ ok claim → IsReasoned claim
  unfolding availability_claim
  availability_claim-IsReasoned claim h = ground arith

  judge_performance-IsReasoned :
      (valid breaches : List (EvidenceRecord F)) (m : Fields F)
      → IsReasoned (judge_performance policy valid breaches m)
  unfolding judge_performance
  judge_performance-IsReasoned valid breaches m = ground arith

  performance_claim-IsReasoned :
      (claim : ClaimResult F)
      → performance_claim contract bundle policy ≡ ok claim
      → IsReasoned claim
  unfolding performance_claim judge_performance
  performance_claim-IsReasoned claim h = ground arith

  -- the claims of a call that did not raise, all of them reasoned
  pub appraise-IsReasoned :
      (claims : List (String × ClaimResult F))
      → appraise contract bundle policy ≡ ok claims
      → All (λ e. IsReasoned e.1) claims
  unfolding appraise
  appraise-IsReasoned claims h =
      let (availability, e₁, h₁) = >>=-eq-ok (availability_claim contract bundle) _ h in
      let (performance, e₂, h₂) = >>=-eq-ok (performance_claim contract bundle policy) _ h₁ in
      subst (All (λ e. IsReasoned e.1)) (ok-injective _ _ h₂) (
        binding_claim-IsReasoned,
        (
          runtime_claim-IsReasoned,
          (
            availability_claim-IsReasoned availability e₁,
            (performance_claim-IsReasoned performance e₂, tt),
          ),
        ),
      )

module _ {F : Type 0} where
  find_claim-IsReasoned :
      (k : String) (claims : List (String × ClaimResult F)) (c : ClaimResult F)
      → All (λ e. IsReasoned e.1) claims
      → find_claim k claims ≡ some c
      → IsReasoned c
  find_claim-IsReasoned k [] c h e = cc
  find_claim-IsReasoned k ((j, d) ∷ claims) c (r, rs) e = elim (Bool-cases (str_eq k j)) [
    | inl same ↦ subst IsReasoned (some-injective d c (rw same at e)) r
    | inr other ↦ find_claim-IsReasoned k claims c rs (rw other at e)
  ]

  pub select_claims-IsReasoned :
      (ids : List String) (claims : List (String × ClaimResult F))
      → All (λ e. IsReasoned e.1) claims
      → All IsReasoned (select_claims ids claims)
  select_claims-IsReasoned [] claims h = tt
  select_claims-IsReasoned (k ∷ ids) claims h = elim (Option-cases (find_claim k claims)) [
    | inl e ↦ rw (e, select_claims) (select_claims-IsReasoned ids claims h)
    | inr (c, e) ↦
        rw (e, select_claims)
          (find_claim-IsReasoned k claims c h e, select_claims-IsReasoned ids claims h)
  ]
