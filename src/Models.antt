-- ===== src/Models.antt =====
-- src/north_standard/models.py: the contract, the evidence, the claims and the verdict.
pub mod Enums
pub mod Reading
pub use Enums.*
use north_standard.Base.{
  ℕ, String, Bool, true, false, not, ◌||◌, Option, none, some, List, [], ◌∷◌, map, Result, ok,
  value_error, ◌>>◌, raise_if, str_eq, nonempty, contains, ◌≡◌,
}
use north_standard.Base.Int.{ℤ, pos, ◌+ℤ◌, ltb_ℤ, leb_ℤ}
use north_standard.Base.Codes.{sort_items}
use north_standard.Value.{
  Float, Value, boolean, integer, float, str, list, tuple, dict, Fields, dict_of, texts, texts_of,
  items_of, optional,
}
use north_standard.Canonical.{Hashing, canonical_sha256}

pub record ComputeContract (F : Type 0) : Type 0 where
  pub schema_version : String
  pub contract_id : String
  pub contract_class_id : String
  pub provider_id : String
  pub buyer_id : String
  pub session_id : String
  pub runtime_profile_id : String
  pub delivery_start : ℤ
  pub duration_seconds : ℤ
  pub sla_policy_id : String
  pub benchmark_profile_id : String
  pub performance_min_score : F
  pub verifier_policy_id : String
  pub settlement_policy_id : String
  pub evidence_schema_version : String
  pub mandatory_claims : List String
  pub research_mode : Bool

pub record EvidenceRecord (F : Type 0) : Type 0 where
  pub schema_version : String
  pub evidence_id : String
  pub evidence_type : EvidenceType
  pub producer_id : String
  pub contract_id : String
  pub session_id : String
  pub observed_at : ℤ
  pub received_at : ℤ
  pub sequence_number : ℤ
  pub payload : Fields F
  pub nonce : Option String
  pub replay_domain : String
  pub authentication_valid : Bool
  pub trust_tier : String

pub record EvidenceBundle (F : Type 0) : Type 0 where
  pub contract_id : String
  pub session_id : String
  pub records : List (EvidenceRecord F)
  pub schema_version : String

pub record ClaimResult (F : Type 0) : Type 0 where
  pub claim_id : String
  pub state : ClaimState
  pub reason_codes : List String
  pub evidence_refs : List String
  pub metrics : Fields F

pub record VerifierResult (F : Type 0) : Type 0 where
  pub schema_version : String
  pub contract_id : String
  pub session_id : String
  pub verifier_policy_id : String
  pub evidence_bundle_root : String
  pub claims : List (String × ClaimResult F)
  pub decision : Decision
  pub reason_codes : List String
  pub verifier_build_id : String
  pub research_mode : Bool

-- `MANDATORY_V01_CLAIMS`
abbrev pub mandatory_v01_claims : List String
mandatory_v01_claims =
    "session.binding" ∷ "service.runtime" ∷ "service.availability" ∷ "service.performance" ∷ []

module _ {F : Type 0} where
  -- `ComputeContract.delivery_end`
  unfoldable pub delivery_end : ComputeContract F → ℤ
  delivery_end c = c.delivery_start +ℤ c.duration_seconds

  -- `EvidenceRecord.__post_init__`
  unfoldable pub check_record : EvidenceRecord F → Result (EvidenceRecord F)
  check_record r = do
    raise_if (not (str_eq r.schema_version "evidence/0.1"))
        (value_error "unsupported evidence schema_version")
    raise_if (ltb_ℤ r.sequence_number (pos 0)) (value_error "sequence_number must be non-negative")
    raise_if (ltb_ℤ r.received_at r.observed_at)
        (value_error "received_at cannot precede observed_at")
    ok r

  -- `ComputeContract.to_dict`
  unfoldable pub contract_dict : ComputeContract F → Value F
  contract_dict c = dict_of (
      ("schema_version", str c.schema_version)
      ∷ ("contract_id", str c.contract_id)
      ∷ ("contract_class_id", str c.contract_class_id)
      ∷ ("provider_id", str c.provider_id)
      ∷ ("buyer_id", str c.buyer_id)
      ∷ ("session_id", str c.session_id)
      ∷ ("runtime_profile_id", str c.runtime_profile_id)
      ∷ ("delivery_start", integer c.delivery_start)
      ∷ ("duration_seconds", integer c.duration_seconds)
      ∷ ("sla_policy_id", str c.sla_policy_id)
      ∷ ("benchmark_profile_id", str c.benchmark_profile_id)
      ∷ ("performance_min_score", float c.performance_min_score)
      ∷ ("verifier_policy_id", str c.verifier_policy_id)
      ∷ ("settlement_policy_id", str c.settlement_policy_id)
      ∷ ("evidence_schema_version", str c.evidence_schema_version)
      ∷ ("mandatory_claims", texts c.mandatory_claims)
      ∷ ("research_mode", boolean c.research_mode)
      ∷ [])

  -- `EvidenceRecord.to_dict`
  unfoldable pub record_dict : EvidenceRecord F → Value F
  record_dict r = dict_of (
      ("schema_version", str r.schema_version)
      ∷ ("evidence_id", str r.evidence_id)
      ∷ ("evidence_type", str (type_value r.evidence_type))
      ∷ ("producer_id", str r.producer_id)
      ∷ ("contract_id", str r.contract_id)
      ∷ ("session_id", str r.session_id)
      ∷ ("observed_at", integer r.observed_at)
      ∷ ("received_at", integer r.received_at)
      ∷ ("sequence_number", integer r.sequence_number)
      ∷ ("payload", dict r.payload)
      ∷ ("nonce", optional r.nonce)
      ∷ ("replay_domain", str r.replay_domain)
      ∷ ("authentication_valid", boolean r.authentication_valid)
      ∷ ("trust_tier", str r.trust_tier)
      ∷ [])

  -- `EvidenceBundle.to_dict`
  unfoldable pub bundle_dict : EvidenceBundle F → Value F
  unfolding record_dict
  bundle_dict b = dict_of (
      ("schema_version", str b.schema_version)
      ∷ ("contract_id", str b.contract_id)
      ∷ ("session_id", str b.session_id)
      ∷ ("records", list (items_of (map record_dict b.records)))
      ∷ [])

  -- `ClaimResult.to_dict`
  unfoldable pub claim_dict : ClaimResult F → Value F
  claim_dict c = dict_of (
      ("claim_id", str c.claim_id)
      ∷ ("state", str (state_value c.state))
      ∷ ("reason_codes", texts c.reason_codes)
      ∷ ("evidence_refs", texts c.evidence_refs)
      ∷ ("metrics", dict c.metrics)
      ∷ [])

  -- `VerifierResult.to_dict`
  unfoldable pub result_dict : VerifierResult F → Value F
  unfolding claim_dict
  result_dict r = dict_of (
      ("schema_version", str r.schema_version)
      ∷ ("contract_id", str r.contract_id)
      ∷ ("session_id", str r.session_id)
      ∷ ("verifier_policy_id", str r.verifier_policy_id)
      ∷ ("evidence_bundle_root", str r.evidence_bundle_root)
      ∷ ("claims", dict_of (map (λ (k, c). (k, claim_dict c)) (sort_items r.claims)))
      ∷ (
        "overall",
        dict_of (
            ("decision", str (decision_value r.decision))
            ∷ ("reason_codes", texts r.reason_codes)
            ∷ []),
      )
      ∷ (
        "audit",
        dict_of (
            ("verifier_build_id", str r.verifier_build_id)
            ∷ ("research_mode", boolean r.research_mode)
            ∷ []),
      )
      ∷ [])

module _ {F : Type 0} ⦃fl : Float F⦄ where
  -- `ComputeContract.__post_init__`
  unfoldable pub check_contract : ComputeContract F → Result (ComputeContract F)
  check_contract c = do
    raise_if (not (str_eq c.schema_version "compute-contract/0.1"))
        (value_error "unsupported compute contract schema_version")
    raise_if (leb_ℤ c.duration_seconds (pos 0)) (value_error "duration_seconds must be positive")
    raise_if (not (nonempty c.contract_id) || not (nonempty c.session_id))
        (value_error "contract_id and session_id are required")
    raise_if (fl.lt c.performance_min_score (fl.lit 0 0))
        (value_error "performance_min_score must be non-negative")
    ok c

module _ {F : Type 0} ⦃hs : Hashing F⦄ where
  -- `ComputeContract.semantic_hash`
  unfoldable pub semantic_hash : ComputeContract F → Result String
  semantic_hash c = canonical_sha256 (contract_dict c)

  -- `EvidenceBundle.bundle_root`
  unfoldable pub bundle_root : EvidenceBundle F → Result String
  bundle_root b = canonical_sha256 (bundle_dict b)

  -- `VerifierResult.result_hash`
  unfoldable pub result_hash : VerifierResult F → Result String
  result_hash r = canonical_sha256 (result_dict r)
