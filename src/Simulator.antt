-- ===== src/Simulator.antt =====
-- src/north_standard/simulator.py: the built-in scenarios.
pub mod Sorting
use Prim.Native.String.{◌++◌ as str_append}
use Prim.Native.Nat.{Ordering}
use Prim.Native.String.{compare}
use north_standard.Base.{
  ℕ, String, Bool, true, false, not, Option, none, some, List, [], ◌∷◌, ◌++◌, filter, nonempty,
  if◌then◌else◌, Result, ok, ◌>>=◌, map_result, ◌*◌,
}
use north_standard.Base.Int.{ℤ, pos, ◌+ℤ◌, ◌-ℤ◌, ltb_ℤ}
use north_standard.Base.Decimal.{decimal}
use north_standard.Value.{Float, Value, boolean, float, str, fields_of}
use north_standard.Models.{
  ComputeContract, EvidenceRecord, EvidenceBundle, EvidenceType, session_binding, runtime_check,
  telemetry, challenge, external_probe, is_type, mandatory_v01_claims, check_contract, check_record,
}

pub data Scenario : Type 0 where
  healthy_service replayed_evidence constant_throttle ambiguous_network_failure : Scenario

-- `a or b`, for texts of which the first may be missing
abbrev pub text_or : Option String → String → String
text_or none t = t
text_or (some s) t = if nonempty s then s else t

-- `min(a, b)` of two integers
abbrev pub min_ℤ : ℤ → ℤ → ℤ
min_ℤ a b = if ltb_ℤ b a then b else a

module _ {F : Type 0} ⦃fl : Float F⦄ where
  unfoldable pub demo_contract : (contract_id session_id : String) → Result (ComputeContract F)
  demo_contract contract session = check_contract (record {
    schema_version = "compute-contract/0.1";
    contract_id = contract;
    contract_class_id = "TEST-NVIDIA-GPU-PROFILE-v0.1";
    provider_id = "provider-demo";
    buyer_id = "buyer-demo";
    session_id = session;
    runtime_profile_id = "CUDA-TEST-RUNTIME-v0.1";
    delivery_start = pos 1_800_000_000;
    duration_seconds = pos 600;
    sla_policy_id = "SLA-v0.1";
    benchmark_profile_id = "GPU-SERVICE-CHALLENGE-v0.1";
    performance_min_score = fl.lit 80 2;
    verifier_policy_id = "VERIFIER-v0.1";
    settlement_policy_id = "SETTLEMENT-v0.1";
    evidence_schema_version = "evidence/0.1";
    mandatory_claims = mandatory_v01_claims;
    research_mode = true;
  })

-- The arguments of one call of `_record`, with the keywords that it may be given.
pub record Draft (F : Type 0) : Type 0 where
  pub evidence_id : String
  pub evidence_type : EvidenceType
  pub sequence_number : ℕ
  pub payload : List (String × Value F)
  pub session_id : Option String
  pub producer_id : String

module _ {F : Type 0} where
  unfoldable pub make_record : ComputeContract F → Draft F → Result (EvidenceRecord F)
  make_record contract d =
      let observed =
        contract.delivery_start
        +ℤ min_ℤ (pos (d.sequence_number * 10)) (contract.duration_seconds -ℤ pos 1) in
      check_record (record {
        schema_version = "evidence/0.1";
        evidence_id = d.evidence_id;
        evidence_type = d.evidence_type;
        producer_id = d.producer_id;
        contract_id = contract.contract_id;
        session_id = text_or d.session_id contract.session_id;
        observed_at = observed;
        received_at = observed +ℤ pos 1;
        sequence_number = pos d.sequence_number;
        payload = fields_of d.payload;
        nonce = some (str_append "nonce-" d.evidence_id);
        replay_domain = "north-standard/v0.1";
        authentication_valid = true;
        trust_tier = if is_type d.evidence_type external_probe then "T4" else "T1";
      })

  -- a call with the default producer and session
  abbrev draft : String → EvidenceType → ℕ → List (String × Value F) → Draft F
  draft id t n fields = record {
    evidence_id = id;
    evidence_type = t;
    sequence_number = n;
    payload = fields;
    session_id = none;
    producer_id = "verifier-fixture";
  }

  -- The key of the final sort is the observation time, then the evidence identifier.
  abbrev comes_after : EvidenceRecord F → EvidenceRecord F → Bool
  comes_after r s =
      if ltb_ℤ s.observed_at r.observed_at
      then true
      else if ltb_ℤ r.observed_at s.observed_at
      then false
      else elim (compare r.evidence_id s.evidence_id) [ Ordering.gt ↦ true | _ ↦ false ]

  insert_record : EvidenceRecord F → List (EvidenceRecord F) → List (EvidenceRecord F)
  insert_record r [] = r ∷ []
  insert_record r (s ∷ rs) = if comes_after r s then s ∷ insert_record r rs else r ∷ s ∷ rs

  unfoldable pub sort_records : List (EvidenceRecord F) → List (EvidenceRecord F)
  unfolding insert_record
  sort_records [] = []
  sort_records (r ∷ rs) = insert_record r (sort_records rs)

  abbrev without : EvidenceType → List (EvidenceRecord F) → List (EvidenceRecord F)
  without t = filter λ r. not (is_type r.evidence_type t)

module _ {F : Type 0} ⦃fl : Float F⦄ where
  abbrev challenge_draft : String → ℕ → (mantissa : ℕ) → Draft F
  challenge_draft id n score =
      draft id challenge n (("score", float (fl.lit score 2)) ∷ ("timed_out", boolean false) ∷ [])

  abbrev binding_draft : String → List (String × Value F) → Draft F
  binding_draft id fields = record (draft id session_binding 1 fields) {
    producer_id = "provider-session-key";
  }

  abbrev healthy_drafts : ComputeContract F → List (Draft F)
  healthy_drafts contract =
      binding_draft "bind-1" (("bound", boolean true) ∷ [])
      ∷ draft "runtime-1" runtime_check 2
          (("usable", boolean true) ∷ ("runtime_profile_id", str contract.runtime_profile_id) ∷ [])
      ∷ record (draft "telemetry-1" telemetry 3 (("service_state", str "HEALTHY") ∷ [])) {
        producer_id = "provider-agent";
      }
      ∷ challenge_draft "challenge-1" 4 96
      ∷ challenge_draft "challenge-2" 5 101
      ∷ challenge_draft "challenge-3" 6 93
      ∷ record (draft "probe-1" external_probe 7
          (("result", str "SUCCESS") ∷ ("attribution", str "NONE") ∷ [])) {
            producer_id = "independent-probe-a";
          }
      ∷ []

  unfoldable pub healthy_records : ComputeContract F → Result (List (EvidenceRecord F))
  unfolding make_record
  healthy_records contract = map_result (make_record contract) (healthy_drafts contract)

  -- `records[0] = …`
  abbrev set_first : EvidenceRecord F → List (EvidenceRecord F) → List (EvidenceRecord F)
  set_first r [] = []
  set_first r (_ ∷ rs) = r ∷ rs

  abbrev replayed_draft : Draft F
  replayed_draft =
      record (binding_draft "bind-replayed"
        (("bound", boolean true) ∷ ("source", str "old-session") ∷ [])) {
          session_id = some "session-from-another-contract";
        }

  abbrev throttle_draft : ℕ → ℕ → Draft F
  throttle_draft n score = challenge_draft (str_append "challenge-throttle-" (decimal n)) n score

  abbrev ambiguous_draft : Draft F
  ambiguous_draft =
      record (draft "probe-ambiguous" external_probe 7 (
        ("result", str "FAILURE")
        ∷ ("attribution", str "UNKNOWN")
        ∷ ("error", str "path timeout")
        ∷ [])) { producer_id = "buyer-edge-probe" }

  -- the branches on the scenario
  unfoldable pub alter_records :
      Scenario → ComputeContract F → List (EvidenceRecord F) → Result (List (EvidenceRecord F))
  unfolding make_record
  alter_records healthy_service contract records = ok records
  alter_records replayed_evidence contract records = do
    r ← make_record contract replayed_draft
    ok (set_first r records)
  alter_records constant_throttle contract records = do
    throttled ←
        map_result (make_record contract)
          (throttle_draft 4 56 ∷ throttle_draft 5 58 ∷ throttle_draft 6 55 ∷ [])
    ok (without challenge records ++ throttled)
  alter_records ambiguous_network_failure contract records = do
    r ← make_record contract ambiguous_draft
    ok (without external_probe records ++ (r ∷ []))

  unfoldable pub simulate_scenario :
      Scenario → Option (ComputeContract F) → Result (ComputeContract F × EvidenceBundle F)
  unfolding demo_contract healthy_records alter_records sort_records
  simulate_scenario scenario given = do
    contract ← elim given [ none ↦ demo_contract "contract-001" "session-001" | some c ↦ ok c ]
    healthy ← healthy_records contract
    altered ← alter_records scenario contract healthy
    ok (
      contract,
      record {
        contract_id = contract.contract_id;
        session_id = contract.session_id;
        records = sort_records altered;
        schema_version = "evidence-bundle/0.1";
      },
    )
