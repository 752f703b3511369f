-- ===== src/Authorization/Package.antt =====
-- What a signing package says, and that every verdict can have one.
use mathlib.Core.Path.{subst}
use north_standard.Base.{
  String, Option, true, ◌≡◌, ◌∙◌, arith, ok, >>=-eq-ok, ok-injective, returns_of_no_error,
  str_eq_iff,
}
use north_standard.Base.Int.{pos, ◌≤ℤ◌}
use north_standard.Value.{Float, Value, Fields}
use north_standard.Canonical.{Hashing, canonical_sha256, canonical_json}
use north_standard.Models.{
  ComputeContract, EvidenceBundle, VerifierResult, semantic_hash, bundle_root,
}
use north_standard.Policy.{VerifierPolicy}
use north_standard.Verifier.{verify}
use north_standard.Verifier.Verdict.{verify-IsVerified}
use north_standard.Commitment.{settlement_hash}
use north_standard.Authorization.{Terms, build_settlement_authorization}
use north_standard.Authorization.Hex.{require_hex32, prefixed_sha256_hex, is_prefixed, is_hex_text}

-- What the code relies on of `hexdigest`: a digest is 64 hexadecimal digits.
abbrev pub IsHexDigest : (F : Type 0) → Hashing F → Type 0
IsHexDigest F hs = (s : String) → is_hex_text 64 (hs.sha256_hex s) ≡ true

-- The arguments that `build_settlement_authorization` takes.
pub record IsAcceptable (terms : Terms) : Type 0 where
  pub agreement : is_prefixed 64 terms.agreement_id ≡ true
  pub verifier_set : is_prefixed 64 terms.verifier_set_id ≡ true
  pub issued : pos 0 ≤ℤ terms.issued_at
  pub until : terms.issued_at ≤ℤ terms.valid_until
  pub counted : pos 0 ≤ℤ terms.nonce

module _ {F : Type 0} ⦃hs : Hashing F⦄ where
  digest_of :
      IsHexDigest F hs
      → (v : Value F) (h : String) → canonical_sha256 v ≡ ok h
      → is_hex_text 64 h ≡ true
  unfolding canonical_sha256
  digest_of law v h e =
      let (text, _, e') = >>=-eq-ok (canonical_json v) _ e in
      subst (λ d. is_hex_text 64 d ≡ true) (ok-injective _ _ e') (law text)

module _ {F : Type 0} ⦃fl : Float F⦄ ⦃hs : Hashing F⦄ where
  -- If digests are 64 hexadecimal digits, then the verdict that `verify` returned for a contract can
  -- be authorized under acceptable terms, provided that the contract and the settlement payload can
  -- be serialized.
  pub verdict_can_be_authorized :
      IsHexDigest F hs
      → (contract : ComputeContract F) (bundle : EvidenceBundle F) (given : Option VerifierPolicy)
        (result : VerifierResult F) (terms : Terms) (contract_hash commitment : String)
      → verify contract bundle given ≡ ok result
      → semantic_hash contract ≡ ok contract_hash
      → settlement_hash result ≡ ok commitment
      → IsAcceptable terms
      → (authorization : Fields F) × (build_settlement_authorization contract result terms
          ≡ ok authorization)
  unfolding build_settlement_authorization semantic_hash settlement_hash bundle_root require_hex32
      prefixed_sha256_hex
  verdict_can_be_authorized law contract bundle given result terms ch cm v c s t =
      let run = verify-IsVerified contract bundle given result v in
      returns_of_no_error _ λ e raised. ground (
        arith,
        raised,
        c,
        s,
        (str_eq_iff result.contract_id contract.contract_id).1 run.names_contract,
        (str_eq_iff result.verifier_policy_id contract.verifier_policy_id).1
            (run.names_policy ∙ run.policy_matches),
        digest_of law _ ch c,
        digest_of law _ cm s,
        digest_of law _ result.evidence_bundle_root run.hashed,
      )
