-- ===== src/Verifier/Runtime.antt =====
-- src/north_standard/verifier.py, `_runtime_claim`.
pub mod Affirming
use north_standard.Base.{
  String, Bool, false, not, ◌||◌, List, [], ◌∷◌, filter, is_empty, if◌then◌else◌,
}
use north_standard.Value.{Float, null, boolean, end, get, is_text, truthy}
use north_standard.Models.{
  ComputeContract, EvidenceRecord, EvidenceBundle, ClaimResult, ClaimState, affirming,
  contradicting, unknown, runtime_check,
}
use north_standard.Verifier.Records.{refs, bound_records}

module _ {F : Type 0} ⦃fl : Float F⦄ where
  abbrev claim : ClaimState → List String → List String → ClaimResult F
  claim s codes evidence = record {
    claim_id = "service.runtime";
    state = s;
    reason_codes = codes;
    evidence_refs = evidence;
    metrics = end;
  }

  -- The record reports an unusable runtime, or another runtime profile than the contract's.
  abbrev pub is_incompatible : ComputeContract F → EvidenceRecord F → Bool
  is_incompatible contract r =
      not (truthy (get "usable" (boolean false) r.payload))
      || not (is_text contract.runtime_profile_id (get "runtime_profile_id" null r.payload))

  unfoldable pub runtime_claim : ComputeContract F → EvidenceBundle F → ClaimResult F
  runtime_claim contract bundle =
      let valid = bound_records contract bundle runtime_check in
      let incompatible = filter (is_incompatible contract) valid in
      if is_empty valid
      then claim unknown ("RUNTIME_EVIDENCE_MISSING" ∷ []) []
      else if not (is_empty incompatible)
      then claim contradicting ("RUNTIME_PROFILE_BREACH" ∷ []) (refs incompatible)
      else claim affirming [] (refs valid)
