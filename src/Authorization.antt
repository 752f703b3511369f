-- ===== src/Authorization.antt =====
-- src/north_standard/authorization.py: the unsigned authorization of a settlement, and its EIP-712
-- typed data.
pub mod Hex
pub mod Package
use Prim.Native.String.{◌++◌ as str_append}
use north_standard.Base.{
  ℕ, String, Bool, true, false, not, ◌||◌, Option, none, some, List, [], ◌∷◌, map, Result, ok, err,
  value_error, key_error, ◌>>=◌, ◌>>◌, raise_if, or_raise, str_eq,
}
use north_standard.Base.Int.{ℤ, pos, ltb_ℤ, leb_ℤ}
use north_standard.Value.{
  Value, integer, str, enum, list, dict, Fields, end, field, fields_of, dict_of, item, items_of,
}
use north_standard.Canonical.{Hashing}
use north_standard.Models.{
  ComputeContract, VerifierResult, Decision, accept, reject, inconclusive, decision_value,
  semantic_hash,
}
use north_standard.Models.Reading.{decision_of}
use north_standard.Commitment.{settlement_hash}
use north_standard.Authorization.Hex.{require_hex32, require_address, prefixed_sha256_hex}

-- `_DECISION_TO_UINT8`
abbrev pub decision_to_uint8 : Decision → ℕ
decision_to_uint8 accept = 0
decision_to_uint8 reject = 1
decision_to_uint8 inconclusive = 2

-- the keyword arguments of `build_settlement_authorization`
pub record Terms : Type 0 where
  pub agreement_id : String
  pub verifier_set_id : String
  pub issued_at : ℤ
  pub valid_until : ℤ
  pub nonce : ℤ

module _ {F : Type 0} where
  -- `Decision(v)`
  abbrev pub to_decision : Value F → Result Decision
  to_decision (str s) = or_raise (decision_of s) (value_error "not a valid Decision")
  to_decision (enum s) = or_raise (decision_of s) (value_error "not a valid Decision")
  to_decision _ = err (value_error "not a valid Decision")

  abbrev type_entry : String × String → Value F
  type_entry (name, type) = dict_of (("name", str name) ∷ ("type", str type) ∷ [])

  -- the constant `types` of the typed data
  abbrev pub eip712_types : Value F
  eip712_types = dict_of (
      (
        "EIP712Domain",
        list (
            items_of (
              map type_entry (
                ("name", "string")
                ∷ ("version", "string")
                ∷ ("chainId", "uint256")
                ∷ ("verifyingContract", "address")
                ∷ []))),
      )
      ∷ (
        "SettlementAuthorization",
        list (
            items_of (
              map type_entry (
                ("agreementId", "bytes32")
                ∷ ("contractHash", "bytes32")
                ∷ ("settlementCommitment", "bytes32")
                ∷ ("evidenceBundleRoot", "bytes32")
                ∷ ("verifierPolicyHash", "bytes32")
                ∷ ("settlementPolicyHash", "bytes32")
                ∷ ("verifierSetId", "bytes32")
                ∷ ("decision", "uint8")
                ∷ ("issuedAt", "uint64")
                ∷ ("validUntil", "uint64")
                ∷ ("nonce", "uint256")
                ∷ []))),
      )
      ∷ [])

  unfoldable pub eip712_typed_data :
      Fields F → (chain_id : ℤ) → (verifying_contract : String) → Result (Fields F)
  eip712_typed_data authorization chain_id verifying_contract = do
    raise_if (leb_ℤ chain_id (pos 0)) (value_error "chain_id must be positive")
    decision ← to_decision (← item "decision" authorization)
    address ← require_address verifying_contract
    agreement ← item "agreement_id" authorization
    contract ← item "contract_hash" authorization
    commitment ← item "settlement_commitment" authorization
    root ← item "evidence_bundle_root" authorization
    policy ← item "verifier_policy_hash" authorization
    settlement ← item "settlement_policy_hash" authorization
    set_id ← item "verifier_set_id" authorization
    issued ← item "issued_at" authorization
    until ← item "valid_until" authorization
    nonce ← item "nonce" authorization
    ok (
        fields_of (
          ("types", eip712_types)
          ∷ ("primaryType", str "SettlementAuthorization")
          ∷ (
            "domain",
            dict_of (
                ("name", str "North Standard Settlement")
                ∷ ("version", str "0.1")
                ∷ ("chainId", integer chain_id)
                ∷ ("verifyingContract", str address)
                ∷ []),
          )
          ∷ (
            "message",
            dict_of (
                ("agreementId", agreement)
                ∷ ("contractHash", contract)
                ∷ ("settlementCommitment", commitment)
                ∷ ("evidenceBundleRoot", root)
                ∷ ("verifierPolicyHash", policy)
                ∷ ("settlementPolicyHash", settlement)
                ∷ ("verifierSetId", set_id)
                ∷ ("decision", integer (pos (decision_to_uint8 decision)))
                ∷ ("issuedAt", issued)
                ∷ ("validUntil", until)
                ∷ ("nonce", nonce)
                ∷ []),
          )
          ∷ []))

module _ (F : Type 0) ⦃hs : Hashing F⦄ where
  -- `_sha256_text`
  abbrev pub sha256_text : String → String
  sha256_text s = str_append "0x" (hs.sha256_hex s)

module _ {F : Type 0} ⦃hs : Hashing F⦄ where
  unfoldable pub build_settlement_authorization :
      ComputeContract F → VerifierResult F → Terms → Result (Fields F)
  build_settlement_authorization contract result terms = do
    raise_if (not (str_eq result.contract_id contract.contract_id))
        (value_error "verifier result does not belong to the supplied contract")
    raise_if (not (str_eq result.verifier_policy_id contract.verifier_policy_id))
        (value_error "verifier result policy does not match contract policy")
    raise_if
        (ltb_ℤ terms.issued_at (pos 0)
          || (ltb_ℤ terms.valid_until (pos 0) || ltb_ℤ terms.nonce (pos 0)))
        (value_error "issued_at, valid_until, and nonce must be non-negative")
    raise_if (ltb_ℤ terms.valid_until terms.issued_at)
        (value_error "valid_until must not precede issued_at")
    agreement ← require_hex32 terms.agreement_id "agreement_id"
    contract_hash ← prefixed_sha256_hex (← semantic_hash contract)
    commitment ← prefixed_sha256_hex (← settlement_hash result)
    root ← prefixed_sha256_hex result.evidence_bundle_root
    set_id ← require_hex32 terms.verifier_set_id "verifier_set_id"
    ok (
        fields_of (
          ("schema_version", str "settlement-authorization/0.1")
          ∷ ("agreement_id", str agreement)
          ∷ ("contract_hash", str contract_hash)
          ∷ ("settlement_commitment", str commitment)
          ∷ ("evidence_bundle_root", str root)
          ∷ ("verifier_policy_hash", str (sha256_text F result.verifier_policy_id))
          ∷ ("settlement_policy_hash", str (sha256_text F contract.settlement_policy_id))
          ∷ ("verifier_set_id", str set_id)
          ∷ ("decision", str (decision_value result.decision))
          ∷ ("issued_at", integer terms.issued_at)
          ∷ ("valid_until", integer terms.valid_until)
          ∷ ("nonce", integer terms.nonce)
          ∷ []))

  unfoldable pub signing_package :
      ComputeContract F
      → VerifierResult F
      → Terms
      → (chain_id : ℤ) → (verifying_contract : String) → Result (Fields F)
  signing_package contract result terms chain_id verifying_contract = do
    authorization ← build_settlement_authorization contract result terms
    typed ← eip712_typed_data authorization chain_id verifying_contract
    ok (fields_of (("authorization", dict authorization) ∷ ("eip712_typed_data", dict typed) ∷ []))
