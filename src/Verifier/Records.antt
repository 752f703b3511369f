-- ===== src/Verifier/Records.antt =====
-- src/north_standard/verifier.py: the selections of records that the claims share.
use north_standard.Base.{String, Bool, ◌&&◌, List, map, filter, str_eq}
use north_standard.Models.{ComputeContract, EvidenceRecord, EvidenceBundle, EvidenceType, is_type}

module _ {F : Type 0} where
  -- `_refs`
  abbrev pub refs : List (EvidenceRecord F) → List String
  refs = map λ r. r.evidence_id

  -- `_records_of`
  abbrev pub records_of : EvidenceBundle F → EvidenceType → List (EvidenceRecord F)
  records_of bundle t = filter (λ r. is_type r.evidence_type t) bundle.records

  -- The condition that the comprehensions repeat: the record names this contract and session, and
  -- its authentication was found valid.
  abbrev pub is_bound : ComputeContract F → EvidenceRecord F → Bool
  is_bound contract r =
      str_eq r.contract_id contract.contract_id
      && str_eq r.session_id contract.session_id
      && r.authentication_valid

  -- The records of one type that are bound.
  abbrev pub bound_records :
      ComputeContract F → EvidenceBundle F → EvidenceType → List (EvidenceRecord F)
  bound_records contract bundle t = filter (is_bound contract) (records_of bundle t)
