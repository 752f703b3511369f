-- ===== src/Verifier.antt =====
-- src/north_standard/verifier.py, `verify`: the appraisal of an evidence bundle.
pub mod Records
pub mod Binding
pub mod Runtime
pub mod Performance
pub mod Availability
pub mod Integrity
pub mod Outcome
pub mod Reasons
pub mod Verdict
pub mod Acceptance
pub mod Returning
pub mod Counting
use north_standard.Verifier.Binding.{binding_claim}
use north_standard.Verifier.Runtime.{runtime_claim}
use north_standard.Verifier.Performance.{performance_claim}
use north_standard.Verifier.Availability.{availability_claim}
use north_standard.Verifier.Integrity.{bundle_integrity_errors}
use north_standard.Verifier.Outcome.{fatal_integrity, select_claims, decide, add_integrity}
use north_standard.Base.{
  String, not, List, [], ◌∷◌, Option, none, some, Result, ok, value_error, ◌>>=◌, ◌>>◌, raise_if,
  str_eq,
}
use north_standard.Value.{Float}
use north_standard.Canonical.{Hashing}
use north_standard.Models.{
  ComputeContract, EvidenceBundle, ClaimResult, VerifierResult, Decision, bundle_root,
}
use north_standard.Policy.{VerifierPolicy, default_policy}

-- `VERIFIER_BUILD_ID`
abbrev pub verifier_build_id : String
verifier_build_id = "north-standard-python/v0.1"

module _ {F : Type 0} where
  -- `policy or VerifierPolicy(policy_id=contract.verifier_policy_id)`
  abbrev pub policy_or_default : ComputeContract F → Option VerifierPolicy → VerifierPolicy
  policy_or_default contract none = default_policy contract.verifier_policy_id
  policy_or_default contract (some p) = p

module _ {F : Type 0} ⦃fl : Float F⦄ where
  -- the dictionary `claims`
  unfoldable pub appraise :
      ComputeContract F → EvidenceBundle F → VerifierPolicy → Result (List (String × ClaimResult F))
  appraise contract bundle policy = do
    availability ← availability_claim contract bundle
    performance ← performance_claim contract bundle policy
    ok (
        ("session.binding", binding_claim contract bundle policy)
        ∷ ("service.runtime", runtime_claim contract bundle)
        ∷ ("service.availability", availability)
        ∷ ("service.performance", performance)
        ∷ [])

module _ {F : Type 0} where
  -- The decision and the reason codes, from the claims and the integrity errors.
  unfoldable pub outcome :
      ComputeContract F
      → (errors : List String) → List (String × ClaimResult F)
      → Decision × List String
  unfolding decide add_integrity
  outcome contract errors claims =
      let fatal = fatal_integrity errors in
      let (decision, codes) = decide fatal (select_claims contract.mandatory_claims claims) in
      (decision, add_integrity errors fatal codes)

  abbrev pub result_of :
      ComputeContract F
      → VerifierPolicy
      → List (String × ClaimResult F)
      → Decision × List String
      → String
      → VerifierResult F
  result_of contract policy appraised (verdict, codes) root = record {
    schema_version = "verifier-result/0.1";
    contract_id = contract.contract_id;
    session_id = contract.session_id;
    verifier_policy_id = policy.policy_id;
    evidence_bundle_root = root;
    claims = appraised;
    decision = verdict;
    reason_codes = codes;
    verifier_build_id = verifier_build_id;
    research_mode = contract.research_mode;
  }

module _ {F : Type 0} ⦃fl : Float F⦄ ⦃hs : Hashing F⦄ where
  unfoldable pub verify :
      ComputeContract F → EvidenceBundle F → Option VerifierPolicy → Result (VerifierResult F)
  verify contract bundle given = do
    let policy = policy_or_default contract given
    raise_if (not (str_eq policy.policy_id contract.verifier_policy_id))
        (value_error "verifier policy mismatch")
    claims ← appraise contract bundle policy
    root ← bundle_root bundle
    let errors = bundle_integrity_errors contract bundle
    ok (result_of contract policy claims (outcome contract errors claims) root)
