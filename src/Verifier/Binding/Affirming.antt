-- ===== src/Verifier/Binding/Affirming.antt =====
-- When `_binding_claim` affirms.
use north_standard.Base.{
  Bool, true, false, List, ◌≡◌, ◌↔◌, arith, is_empty, All, All-map, str_eq, str_eq_iff,
  filter-not-empty→All, All→filter-not-empty,
}
use north_standard.Models.{
  ComputeContract, EvidenceBundle, EvidenceRecord, affirming, session_binding,
}
use north_standard.Policy.{VerifierPolicy}
use north_standard.Verifier.Records.{records_of}
use north_standard.Verifier.Binding.{binding_claim, nonces}
use north_standard.Verifier.Binding.Nonces.{IsNodup, duplicates-empty_iff}

module _ {F : Type 0} (contract : ComputeContract F) (bundle : EvidenceBundle F) where
  abbrev bindings : List (EvidenceRecord F)
  bindings = records_of bundle session_binding

  -- The bundle and all its binding records, of which there is one, name the contract's identifier
  -- and session; the records are authentic, and no nonce is used twice where the policy asks for it.
  pub record IsBinding (policy : VerifierPolicy) : Type 0 where
    pub present : is_empty bindings ≡ false
    pub contract_matches : bundle.contract_id ≡ contract.contract_id
    pub session_matches : bundle.session_id ≡ contract.session_id
    pub contracts : All (λ r. r.contract_id ≡ contract.contract_id) bindings
    pub sessions : All (λ r. r.session_id ≡ contract.session_id) bindings
    pub authentic : All (λ r. r.authentication_valid ≡ true) bindings
    pub fresh : policy.require_unique_nonces ≡ true → IsNodup (nonces bindings)

module _ {F : Type 0} (contract : ComputeContract F) (bundle : EvidenceBundle F)
    (policy : VerifierPolicy) where
  abbrev names_contract : EvidenceRecord F → Bool
  names_contract r = str_eq r.contract_id contract.contract_id

  abbrev names_session : EvidenceRecord F → Bool
  names_session r = str_eq r.session_id contract.session_id

  binding_claim-IsBinding :
      (binding_claim contract bundle policy).state ≡ affirming → IsBinding contract bundle policy
  unfolding binding_claim
  binding_claim-IsBinding h =
      let rs = records_of bundle session_binding in
      record {
        present = ground arith;
        contract_matches = (str_eq_iff _ _).0 (ground arith);
        session_matches = (str_eq_iff _ _).0 (ground arith);
        contracts =
            All-map (λ r. (str_eq_iff r.contract_id contract.contract_id).0) rs
              (filter-not-empty→All names_contract rs (ground arith));
        sessions =
            All-map (λ r. (str_eq_iff r.session_id contract.session_id).0) rs
              (filter-not-empty→All names_session rs (ground arith));
        authentic = filter-not-empty→All (λ r. r.authentication_valid) rs (ground arith);
        fresh = λ asked. (duplicates-empty_iff (nonces rs)).0 (ground arith);
      }

  IsBinding-binding_claim :
      IsBinding contract bundle policy → (binding_claim contract bundle policy).state ≡ affirming
  unfolding binding_claim
  IsBinding-binding_claim b =
      let rs = records_of bundle session_binding in
      ground (
        arith,
        (str_eq_iff bundle.contract_id contract.contract_id).1 b.contract_matches,
        (str_eq_iff bundle.session_id contract.session_id).1 b.session_matches,
        All→filter-not-empty names_contract rs
            (All-map (λ r. (str_eq_iff r.contract_id contract.contract_id).1) rs b.contracts),
        All→filter-not-empty names_session rs
            (All-map (λ r. (str_eq_iff r.session_id contract.session_id).1) rs b.sessions),
        All→filter-not-empty (λ r. r.authentication_valid) rs b.authentic,
        λ (asked : policy.require_unique_nonces ≡ true).
            (duplicates-empty_iff (nonces rs)).1 (b.fresh asked),
      )

  -- The session binding is affirmed exactly when the bundle has a binding record, the bundle and
  -- every binding record name the contract's identifier and session, every binding record is
  -- authenticated and, where the policy asks for unique nonces, no two of them share a nonce.
  pub binding_claim_affirms :
      ((binding_claim contract bundle policy).state ≡ affirming) ↔ IsBinding contract bundle policy
  binding_claim_affirms = (binding_claim-IsBinding, IsBinding-binding_claim)
