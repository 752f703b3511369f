-- ===== src/Tests/Bundles.antt =====
-- Contracts, bundles and verdicts for the tests, with the records of the scenarios of
-- src/north_standard/simulator.py.
use north_standard.Base.{ℕ, ◌+◌, ◌*◌, String, true, false, some, List, [], ◌∷◌}
use north_standard.Base.Int.{pos}
use north_standard.Value.{Value, boolean, float, integer, str, end, fields_of}
use north_standard.Models.{
  ComputeContract, EvidenceRecord, EvidenceBundle, EvidenceType, ClaimResult, ClaimState, affirming,
  contradicting, session_binding, runtime_check, telemetry, challenge, external_probe,
  mandatory_v01_claims,
}
use north_standard.Verifier.{outcome}
use north_standard.Samples.{Micro, micro_float, sample_hashing}

abbrev pub contract : ComputeContract Micro
contract = record {
  schema_version = "compute-contract/0.1";
  contract_id = "contract-001";
  contract_class_id = "TEST-NVIDIA-GPU-PROFILE-v0.1";
  provider_id = "provider-demo";
  buyer_id = "buyer-demo";
  session_id = "session-001";
  runtime_profile_id = "CUDA-TEST-RUNTIME-v0.1";
  delivery_start = pos 1_800_000_000;
  duration_seconds = pos 600;
  sla_policy_id = "SLA-v0.1";
  benchmark_profile_id = "GPU-SERVICE-CHALLENGE-v0.1";
  performance_min_score = some (pos 800_000);
  verifier_policy_id = "VERIFIER-v0.1";
  settlement_policy_id = "SETTLEMENT-v0.1";
  evidence_schema_version = "evidence/0.1";
  mandatory_claims = mandatory_v01_claims;
  research_mode = true;
}

abbrev evidence : String → EvidenceType → ℕ → List (String × Value Micro) → EvidenceRecord Micro
evidence id t n fields = record {
  schema_version = "evidence/0.1";
  evidence_id = id;
  evidence_type = t;
  producer_id = "fixture";
  contract_id = "contract-001";
  session_id = "session-001";
  observed_at = pos (1_800_000_000 + n * 10);
  received_at = pos (1_800_000_001 + n * 10);
  sequence_number = pos n;
  payload = fields_of fields;
  nonce = some id;
  replay_domain = "north-standard/v0.1";
  authentication_valid = true;
  trust_tier = "T1";
}

abbrev pub scored : String → ℕ → ℕ → EvidenceRecord Micro
scored id n score =
    evidence id challenge n
      (("score", float (some (pos score))) ∷ ("timed_out", boolean false) ∷ [])

abbrev pub probe : String → String → EvidenceRecord Micro
probe outcome attribution =
    evidence "probe-1" external_probe 7
      (("result", str outcome) ∷ ("attribution", str attribution) ∷ [])

abbrev pub reported : String → EvidenceRecord Micro
reported state = evidence "telemetry-1" telemetry 3 (("service_state", str state) ∷ [])

abbrev bundle_of : List (EvidenceRecord Micro) → EvidenceBundle Micro
bundle_of rs = record {
  contract_id = "contract-001";
  session_id = "session-001";
  records =
      evidence "bind-1" session_binding 1 (("bound", boolean true) ∷ [])
      ∷ evidence "runtime-1" runtime_check 2
          (("usable", boolean true) ∷ ("runtime_profile_id", str "CUDA-TEST-RUNTIME-v0.1") ∷ [])
      ∷ rs;
  schema_version = "evidence-bundle/0.1";
}

abbrev pub three_scores : ℕ → ℕ → ℕ → List (EvidenceRecord Micro)
three_scores a b c =
    scored "challenge-1" 4 a ∷ scored "challenge-2" 5 b ∷ scored "challenge-3" 6 c ∷ []

-- all is well
abbrev pub healthy : EvidenceBundle Micro
healthy =
    bundle_of (reported "HEALTHY" ∷ probe "SUCCESS" "NONE" ∷ three_scores 960_000 1_010_000 930_000)

-- three challenges below the floor
abbrev pub throttled : EvidenceBundle Micro
throttled =
    bundle_of (reported "HEALTHY" ∷ probe "SUCCESS" "NONE" ∷ three_scores 560_000 580_000 550_000)

-- the provider is blamed by a probe and by its own telemetry
abbrev pub outage : EvidenceBundle Micro
outage =
    bundle_of
      (reported "UNAVAILABLE" ∷ probe "FAILURE" "PROVIDER" ∷ three_scores 960_000 1_010_000 930_000)

-- the probe failed and nobody is blamed
abbrev pub ambiguous : EvidenceBundle Micro
ambiguous =
    bundle_of
      (reported "HEALTHY" ∷ probe "FAILURE" "UNKNOWN" ∷ three_scores 960_000 1_010_000 930_000)

abbrev pub available : ClaimResult Micro
available = record {
  claim_id = "service.availability";
  state = affirming;
  reason_codes = [];
  evidence_refs = "telemetry-1" ∷ "probe-1" ∷ "challenge-1" ∷ "challenge-2" ∷ "challenge-3" ∷ [];
  metrics = end;
}

abbrev pub unavailable : ClaimResult Micro
unavailable = record {
  claim_id = "service.availability";
  state = contradicting;
  reason_codes = "AVAILABILITY_PROVIDER_FAILURE" ∷ [];
  evidence_refs = "probe-1" ∷ "telemetry-1" ∷ [];
  metrics = end;
}

abbrev performance :
    ClaimState → List String → (breaches least greatest mean : ℕ) → ClaimResult Micro
performance s codes breaches least greatest mean = record {
  claim_id = "service.performance";
  state = s;
  reason_codes = codes;
  evidence_refs = "challenge-1" ∷ "challenge-2" ∷ "challenge-3" ∷ [];
  metrics = fields_of (
      ("valid_challenges", integer (pos 3))
      ∷ ("breach_challenges", integer (pos breaches))
      ∷ ("minimum_score", float (some (pos least)))
      ∷ ("maximum_score", float (some (pos greatest)))
      ∷ ("mean_score", float (some (pos mean)))
      ∷ ("contract_floor", float (some (pos 800_000)))
      ∷ ("threshold_status", str "EXPERIMENT_DEFINED")
      ∷ []);
}

abbrev pub performed : ClaimResult Micro
performed = performance affirming [] 0 930_000 1_010_000 966_666

abbrev pub underperformed : ClaimResult Micro
underperformed =
    performance contradicting ("CHALLENGE_PERFORMANCE_BREACH" ∷ []) 3 550_000 580_000 563_333
