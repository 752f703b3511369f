-- ===== src/Commitment.antt =====
-- src/north_standard/commitment.py: the payload that settlement commits to, and its hash.
pub mod Binding
use north_standard.Base.{String, List, [], ◌∷◌, map, Result}
use north_standard.Base.Codes.{sort_items}
use north_standard.Value.{Value, str, dict_of, texts}
use north_standard.Canonical.{Hashing, canonical_sha256}
use north_standard.Models.{ClaimResult, VerifierResult, state_value, decision_value}

module _ {F : Type 0} where
  -- the part of a claim that is committed to
  abbrev pub claim_payload : ClaimResult F → Value F
  claim_payload claim =
      dict_of
        (("state", str (state_value claim.state)) ∷ ("reason_codes", texts claim.reason_codes) ∷ [])

  abbrev pub claim_entry : String × ClaimResult F → String × Value F
  claim_entry (claim_id, claim) = (claim_id, claim_payload claim)

  unfoldable pub settlement_payload : VerifierResult F → Value F
  settlement_payload result = dict_of (
      ("schema_version", str "settlement-commitment/0.1")
      ∷ ("contract_id", str result.contract_id)
      ∷ ("session_id", str result.session_id)
      ∷ ("verifier_policy_id", str result.verifier_policy_id)
      ∷ ("evidence_bundle_root", str result.evidence_bundle_root)
      ∷ ("claims", dict_of (map claim_entry (sort_items result.claims)))
      ∷ (
        "overall",
        dict_of (
            ("decision", str (decision_value result.decision))
            ∷ ("reason_codes", texts result.reason_codes)
            ∷ []),
      )
      ∷ [])

module _ {F : Type 0} ⦃hs : Hashing F⦄ where
  unfoldable pub settlement_hash : VerifierResult F → Result String
  settlement_hash result = canonical_sha256 (settlement_payload result)
