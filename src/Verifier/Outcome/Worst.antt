-- ===== src/Verifier/Outcome/Worst.antt =====
-- The decision of `verify` as the worst that is said of the evidence.
use north_standard.Base.{
  ℕ, zero, suc, String, Bool, true, false, not, List, [], ◌∷◌, ◌≡◌, ◌≤◌, refl, ◌∙◌, arith, Option,
  ok, all, ◌||◌, is_empty, if◌then◌else◌, leb,
}
use north_standard.Value.{Float}
use north_standard.Canonical.{Hashing}
use north_standard.Models.{
  ComputeContract, EvidenceBundle, VerifierResult, ClaimResult, ClaimState, affirming,
  contradicting, unknown, not_evaluated, invalid, is_state, Decision, accept, reject, inconclusive,
}
use north_standard.Policy.{VerifierPolicy}
use north_standard.Verifier.{verify, outcome}
use north_standard.Verifier.Integrity.{bundle_integrity_errors}
use north_standard.Verifier.Outcome.{decide, any_in, fatal_integrity}
use north_standard.Verifier.Verdict.{mandatory, verify-IsVerified}

-- How much a claim's state speaks against the service: 0 for it, 1 open, 2 against it.
unfoldable pub severity : ClaimState → ℕ
severity affirming = 0
severity unknown = 1
severity not_evaluated = 1
severity contradicting = 2
severity invalid = 2

abbrev worse : ℕ → ℕ → ℕ
worse m n = if leb m n then n else m

module _ {F : Type 0} where
  -- the greatest severity, by which the order of the claims does not count
  unfoldable pub worst : List (ClaimResult F) → ℕ
  worst [] = 0
  worst (c ∷ cs) = worse (severity c.state) (worst cs)

-- The abstract decision: the bundle repeats itself, or else the worst claim, decides.
unfoldable pub settle : (repeated : Bool) → (level : ℕ) → Decision
settle true level = reject
settle false zero = accept
settle false (suc zero) = inconclusive
settle false (suc (suc n)) = reject

module _ {F : Type 0} where
  worst-low : (cs : List (ClaimResult F)) → worst cs ≤ 2
  unfolding worst severity
  worst-low [] = omega arith
  worst-low (c ∷ cs) = ground (arith, worst-low cs)

  worst-two :
      (cs : List (ClaimResult F))
      → (any_in contradicting cs || any_in invalid cs) ≡ leb 2 (worst cs)
  unfolding worst severity
  worst-two [] = refl
  worst-two (c ∷ cs) = ground (arith, worst-two cs, worst-low cs)

  worst-zero :
      (cs : List (ClaimResult F)) → all (λ c. is_state c.state affirming) cs ≡ leb (worst cs) 0
  unfolding worst severity
  worst-zero [] = refl
  worst-zero (c ∷ cs) = ground (arith, worst-zero cs)

  worst-unknown : (cs : List (ClaimResult F)) → any_in unknown cs ≡ true → 1 ≤ worst cs
  unfolding worst severity
  worst-unknown [] h = cc
  worst-unknown (c ∷ cs) h = ground (arith, worst-unknown cs)

  decide-settles :
      (fatal : List String) (cs : List (ClaimResult F))
      → (decide fatal cs).0 ≡ settle (not (is_empty fatal)) (worst cs)
  unfolding decide settle
  decide-settles fatal cs =
      let two = worst-two cs in
      let zero_ = worst-zero cs in
      let low = worst-low cs in by_level fatal cs (worst cs) refl two zero_ low
    where
      by_level :
          (fatal : List String) (cs : List (ClaimResult F)) (n : ℕ)
          → worst cs ≡ n
          → (any_in contradicting cs || any_in invalid cs) ≡ leb 2 (worst cs)
          → all (λ c. is_state c.state affirming) cs ≡ leb (worst cs) 0
          → worst cs ≤ 2
          → (decide fatal cs).0 ≡ settle (not (is_empty fatal)) n
      by_level fatal cs zero e two zero_ low = ground (arith, e, two, zero_, low, worst-unknown cs)
      by_level fatal cs (suc zero) e two zero_ low =
          ground (arith, e, two, zero_, low, worst-unknown cs)
      by_level fatal cs (suc (suc n)) e two zero_ low =
          ground (arith, e, two, zero_, low, worst-unknown cs)

-- A call of `verify` that returns decides as the abstract verifier does: it rejects a bundle with a
-- fatal integrity error and, otherwise, decides by the greatest severity among the states of the
-- mandatory claims alone, whatever their number, their order and their reasons.
pub verify_refines_settle :
    {F : Type 0} ⦃fl : Float F⦄ ⦃hs : Hashing F⦄ (contract : ComputeContract F)
    (bundle : EvidenceBundle F) (given : Option VerifierPolicy) (result : VerifierResult F)
    → verify contract bundle given ≡ ok result
    → result.decision
      ≡ settle
          (not (is_empty (fatal_integrity (bundle_integrity_errors contract bundle))))
          (worst (mandatory contract result))
unfolding outcome
verify_refines_settle contract bundle given result verified =
    (verify-IsVerified contract bundle given result verified).decided
    ∙ decide-settles (fatal_integrity (bundle_integrity_errors contract bundle))
        (mandatory contract result)
