-- ===== src/Tests/Settlements.antt =====
-- The theorems on the commitment and on the authorization at the sample verdicts.
use north_standard.Base.{arith, ◌≡◌, refl, ok, none}
use north_standard.Base.Int.{pos}
use north_standard.Value.{Fields}
use north_standard.Base.Codes.{sort_items}
use north_standard.Verifier.Runtime.{runtime_claim}
use north_standard.Verifier.Binding.{binding_claim}
use north_standard.Canonical.{canonical_sha256, canonical_json, normalize}
use north_standard.Models.{VerifierResult, semantic_hash, contract_dict}
use north_standard.Commitment.{settlement_payload, settlement_hash}
use north_standard.Commitment.Binding.{
  settlement_payload-bare, settlement_payload_binds, SameOutcome, bare,
}
use north_standard.Authorization.{Terms, build_settlement_authorization}
use north_standard.Authorization.Package.{IsAcceptable, IsHexDigest, verdict_can_be_authorized}
use north_standard.Samples.{Micro, micro_float, sample_hashing, sketch, zero_digest}
use north_standard.Tests.Bundles.{contract, healthy}
use north_standard.Tests.Verdicts.{accepted, rejected, healthy-accepted}

-- the accepting verdict of another build
abbrev rebuilt : VerifierResult Micro
rebuilt = record accepted { verifier_build_id = "another-build" }

same_payload : settlement_payload accepted ≡ settlement_payload rebuilt
unfolding settlement_payload
same_payload = refl

settlement_payload_binds_example : SameOutcome accepted rebuilt
settlement_payload_binds_example = settlement_payload_binds accepted rebuilt same_payload

settlement_payload-bare_example : settlement_payload (bare rejected) ≡ settlement_payload rejected
settlement_payload-bare_example = settlement_payload-bare rejected

abbrev pub terms : Terms
terms = record {
  agreement_id = "0x0000000000000000000000000000000000000000000000000000000000000ABC";
  verifier_set_id = "0x00000000000000000000000000000000000000000000000000000000000000ff";
  issued_at = pos 1_800_000_700;
  valid_until = pos 1_800_001_700;
  nonce = pos 1;
}

terms-IsAcceptable : IsAcceptable terms
terms-IsAcceptable = record {
  agreement = refl;
  verifier_set = refl;
  issued = omega arith;
  until = omega arith;
  counted = omega arith;
}

contract_hashed : semantic_hash contract ≡ ok zero_digest
unfolding semantic_hash contract_dict canonical_sha256 canonical_json normalize sketch
contract_hashed = refl

accepted_committed : settlement_hash accepted ≡ ok zero_digest
unfolding settlement_hash settlement_payload canonical_sha256 canonical_json normalize sketch
    sort_items runtime_claim binding_claim
accepted_committed = refl

zero-IsHexDigest : IsHexDigest Micro sample_hashing
zero-IsHexDigest s = refl

verdict_can_be_authorized_example :
    (authorization : Fields Micro) × (build_settlement_authorization contract accepted terms
      ≡ ok authorization)
verdict_can_be_authorized_example =
    verdict_can_be_authorized zero-IsHexDigest contract healthy none accepted terms zero_digest
      zero_digest healthy-accepted contract_hashed accepted_committed terms-IsAcceptable
