-- ===== src/Verifier/Verdict.antt =====
-- The decision of `verify`, stated of the records and of the claims that it returns.
use mathlib.Core.Path.{subst}
use north_standard.Base.{
  String, Bool, List, [], ◌∷◌, ◌≡◌, ◌≢◌, ◌↔◌, ◌⊎◌, inl, inr, ap, sym, ◌∙◌, true, false, Option, All,
  ok, >>=-eq-ok, ok-injective, is_empty, str_eq, Bool-cases, str_eq_iff, refl,
}
use north_standard.Base.Codes.{IsStrictlySorted, sorted_set-IsStrictlySorted}
use north_standard.Value.{Float}
use north_standard.Canonical.{Hashing}
use north_standard.Models.{
  ComputeContract, EvidenceBundle, ClaimResult, VerifierResult, affirming, contradicting, invalid,
  accept, reject, bundle_root,
}
use north_standard.Policy.{VerifierPolicy}
use north_standard.Verifier.{verify, appraise, outcome, policy_or_default}
use north_standard.Verifier.Integrity.{bundle_integrity_errors}
use north_standard.Verifier.Integrity.Distinct.{AllDiffer, fatal_integrity-empty_iff}
use north_standard.Verifier.Outcome.{fatal_integrity, select_claims, any_in, decide, add_integrity}
use north_standard.Verifier.Outcome.Deciding.{
  decide-accept_iff, decide-reject_iff, decide_reasons, decide-IsStrictlySorted, IsReasoned,
  add_integrity-IsStrictlySorted, add_integrity-nil, add_integrity-nonempty,
}
use north_standard.Verifier.Reasons.{appraise-IsReasoned, select_claims-IsReasoned}

nil_of_empty : (xs : List String) → is_empty xs ≡ true → xs ≡ []
nil_of_empty [] h = refl
nil_of_empty (x ∷ xs) h = cc

module _ {F : Type 0} where
  -- the mandatory claims of a verdict
  abbrev pub mandatory : ComputeContract F → VerifierResult F → List (ClaimResult F)
  mandatory contract result = select_claims contract.mandatory_claims result.claims

module _ {F : Type 0} ⦃fl : Float F⦄ ⦃hs : Hashing F⦄ (contract : ComputeContract F)
    (bundle : EvidenceBundle F) (given : Option VerifierPolicy) where
  abbrev policy : VerifierPolicy
  policy = policy_or_default contract given

  abbrev errors : List String
  errors = bundle_integrity_errors contract bundle

  -- How a call that returned came to its result.
  pub record IsVerified (result : VerifierResult F) : Type 0 where
    pub names_contract : result.contract_id ≡ contract.contract_id
    pub names_policy : result.verifier_policy_id ≡ policy.policy_id
    pub policy_matches : policy.policy_id ≡ contract.verifier_policy_id
    pub appraised : appraise contract bundle policy ≡ ok result.claims
    pub hashed : bundle_root bundle ≡ ok result.evidence_bundle_root
    pub decided : result.decision ≡ (outcome contract errors result.claims).0
    pub explained : result.reason_codes ≡ (outcome contract errors result.claims).1

  pub verify-IsVerified :
      (result : VerifierResult F) → verify contract bundle given ≡ ok result → IsVerified result
  unfolding verify
  verify-IsVerified result h =
      elim (Bool-cases (str_eq policy.policy_id contract.verifier_policy_id)) [
        | inl same ↦
            let h' = rw same at h in
            let (claims, e₁, h₁) = >>=-eq-ok (appraise contract bundle policy) _ h' in
            let (root, e₂, h₂) = >>=-eq-ok (bundle_root bundle) _ h₁ in
            subst IsVerified (ok-injective _ _ h₂) (record {
              names_contract = refl;
              names_policy = refl;
              policy_matches = (str_eq_iff _ _).0 same;
              appraised = e₁;
              hashed = e₂;
              decided = refl;
              explained = refl;
            })
        | inr other ↦ cc (rw other at h)
      ]

  module _ (result : VerifierResult F) (verified : verify contract bundle given ≡ ok result) where
    abbrev run : IsVerified result
    run = verify-IsVerified result verified

    fatal_iff : (is_empty (fatal_integrity errors) ≡ true) ↔ AllDiffer bundle.records
    fatal_iff = fatal_integrity-empty_iff contract bundle

    -- A call of `verify` that returns accepts exactly when no two records of the bundle repeat an
    -- evidence identifier, or the text "producer:session" with a sequence number, and every mandatory
    -- claim that the verifier knows is affirmed.
    pub verify_accepts :
        (result.decision ≡ accept)
        ↔ (AllDiffer bundle.records × All (λ c. c.state ≡ affirming) (mandatory contract result))
    unfolding outcome
    verify_accepts =
        let (to, from) = decide-accept_iff (fatal_integrity errors) (mandatory contract result) in
        (
          λ e. let (clean, affirmed) = to (sym run.decided ∙ e) in (fatal_iff.0 clean, affirmed),
          λ (differ, affirmed). run.decided ∙ from (fatal_iff.1 differ, affirmed),
        )

    -- A call of `verify` that returns rejects exactly when two records of the bundle repeat an
    -- evidence identifier, or the text "producer:session" with a sequence number, or some mandatory
    -- claim that the verifier knows is contradicted or invalid.
    pub verify_rejects : (result.decision ≡ reject) ↔ (
        ¬ AllDiffer bundle.records
        ⊎ ((any_in contradicting (mandatory contract result) ≡ true)
            ⊎ (any_in invalid (mandatory contract result) ≡ true)))
    unfolding outcome
    verify_rejects =
        let (to, from) = decide-reject_iff (fatal_integrity errors) (mandatory contract result) in
        (
          λ e. elim (to (sym run.decided ∙ e)) [
            | inl fatal ↦ inl (λ differ. cc (fatal, fatal_iff.1 differ))
            | inr claims ↦ inr claims
          ],
          λ s.
              run.decided
              ∙ from (elim s [
                | inl clash ↦ inl (not-true _ (λ clean. clash (fatal_iff.0 clean)))
                | inr claims ↦ inr claims
              ]),
        )
      where
        not-true : (b : Bool) → b ≢ true → b ≡ false
        not-true true n = absurd (n refl)
        not-true false n = refl

    errors-IsStrictlySorted : IsStrictlySorted errors
    unfolding bundle_integrity_errors
    errors-IsStrictlySorted = sorted_set-IsStrictlySorted _

    claims-IsReasoned : All IsReasoned (mandatory contract result)
    claims-IsReasoned =
        select_claims-IsReasoned contract.mandatory_claims result.claims
          (appraise-IsReasoned contract bundle policy result.claims run.appraised)

    -- The reason codes of a verdict stand in strictly rising order, so none stands twice.
    pub verify-IsStrictlySorted : IsStrictlySorted result.reason_codes
    unfolding outcome
    verify-IsStrictlySorted =
        let fatal = fatal_integrity errors in
        subst IsStrictlySorted (sym run.explained) (
          add_integrity-IsStrictlySorted errors fatal _
            (decide-IsStrictlySorted fatal (mandatory contract result)))

    -- A verdict other than acceptance carries a reason code.
    pub verify_reasons : result.decision ≢ accept → is_empty result.reason_codes ≡ false
    unfolding outcome
    verify_reasons n =
        let fatal = fatal_integrity errors in
        let cs = mandatory contract result in
        subst (λ codes. is_empty codes ≡ false) (sym run.explained)
          (add_integrity-nonempty errors fatal (decide fatal cs).1
            (elim (Bool-cases (is_empty (decide fatal cs).1)) [
              | inl none_ ↦
                  absurd (n (run.decided ∙ (decide_reasons fatal cs claims-IsReasoned).1 none_))
              | inr some_ ↦ some_
            ]))

    -- The reason codes of an acceptance are the integrity errors of the bundle.
    pub verify_accept_reasons :
        result.decision ≡ accept → result.reason_codes ≡ bundle_integrity_errors contract bundle
    unfolding outcome
    verify_accept_reasons e =
        let fatal = fatal_integrity errors in
        let cs = mandatory contract result in
        let accepted = sym run.decided ∙ e in
        run.explained
        ∙ ap (add_integrity errors fatal)
            (nil_of_empty _ ((decide_reasons fatal cs claims-IsReasoned).0 accepted))
        ∙ add_integrity-nil errors fatal (errors-IsStrictlySorted)
            ((decide-accept_iff fatal cs).0 accepted).0
