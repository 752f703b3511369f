-- ===== src/Verifier/Binding.antt =====
-- src/north_standard/verifier.py, `_binding_claim`.
pub mod Nonces
pub mod Affirming
use north_standard.Base.{
  ℕ, suc, String, not, ◌&&◌, ◌||◌, none, some, List, [], ◌∷◌, length, filter, is_empty, or_else,
  str_eq, if◌then◌else◌, ltb,
}
use north_standard.Base.Int.{pos}
use north_standard.Value.{integer, end, fields_of}
use north_standard.Models.{
  ComputeContract, EvidenceRecord, EvidenceBundle, ClaimResult, ClaimState, affirming,
  contradicting, unknown, invalid, session_binding,
}
use north_standard.Policy.{VerifierPolicy}
use north_standard.Verifier.Records.{refs, records_of}

-- `Counter(xs)[x]`
abbrev pub count : String → List String → ℕ
count x [] = 0
count x (y ∷ ys) = if str_eq x y then suc (count x ys) else count x ys

-- the keys of `Counter(xs)`, in the order in which they come first
abbrev pub distinct : List String → List String
distinct [] = []
distinct (x ∷ xs) = x ∷ filter (λ y. not (str_eq x y)) (distinct xs)

-- `[x for x, n in Counter(xs).items() if n > 1]`
abbrev pub duplicates : List String → List String
duplicates xs = filter (λ x. ltb 1 (count x xs)) (distinct xs)

module _ {F : Type 0} where
  -- `[r.nonce for r in records if r.nonce is not None]`
  abbrev pub nonces : List (EvidenceRecord F) → List String
  nonces [] = []
  nonces (r ∷ rs) = elim r.nonce [ none ↦ nonces rs | some n ↦ n ∷ nonces rs ]

  abbrev claim : ClaimState → List String → List String → ClaimResult F
  claim s codes evidence = record {
    claim_id = "session.binding";
    state = s;
    reason_codes = codes;
    evidence_refs = evidence;
    metrics = end;
  }

  unfoldable pub binding_claim :
      ComputeContract F → EvidenceBundle F → VerifierPolicy → ClaimResult F
  binding_claim contract bundle policy =
      let records = records_of bundle session_binding in
      let wrong_contract = filter (λ r. not (str_eq r.contract_id contract.contract_id)) records in
      let wrong_session = filter (λ r. not (str_eq r.session_id contract.session_id)) records in
      let invalid_auth = filter (λ r. not r.authentication_valid) records in
      let repeated = duplicates (nonces records) in
      if is_empty records
      then claim unknown ("SESSION_BINDING_MISSING" ∷ []) []
      else if not (is_empty wrong_contract) || not (str_eq bundle.contract_id contract.contract_id)
      then claim contradicting ("SESSION_CONTRACT_MISMATCH" ∷ [])
          (refs (or_else wrong_contract records))
      else if not (is_empty wrong_session) || not (str_eq bundle.session_id contract.session_id)
      then claim contradicting ("SESSION_ID_MISMATCH" ∷ []) (refs (or_else wrong_session records))
      else if not (is_empty invalid_auth)
      then claim (if policy.reject_invalid_authentication then invalid else unknown)
          ("SESSION_SIGNATURE_INVALID" ∷ []) (refs invalid_auth)
      else if policy.require_unique_nonces && not (is_empty repeated)
      then record (claim contradicting ("EVIDENCE_NONCE_REPLAY" ∷ []) (refs records)) {
        metrics = fields_of (("duplicate_nonce_count", integer (pos (length repeated))) ∷ []);
      }
      else claim affirming [] (refs records)
