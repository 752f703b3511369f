-- ===== src/Tests/Traces.antt =====
-- A recorded trace of two samples, and what is made of it.
use north_standard.Base.{ℕ, String, some, List, [], ◌∷◌, ◌++◌}
use north_standard.Base.Int.{pos}
use north_standard.Value.{
  Value, integer, float, str, Fields, fields_of, dict, dict_of, list, items_of, put,
}
use north_standard.Models.{ComputeContract, EvidenceBundle, challenge}
use north_standard.Recorded.Calibration.{calibration_of, recorded_real}
use north_standard.Recorded.Contract.{Parties}
use north_standard.Recorded.Protocol.{normalized_profile}
use north_standard.Recorded.Bundle.{Entry, fixed_entries, common_provenance, sample_payload}
use north_standard.Recorded.Bundle.Shape.{numbered}
use north_standard.Samples.{Micro, zero_digest}
use north_standard.Tests.Bundles.{contract}

abbrev number : ℕ → Value Micro
number n = integer (pos n)

abbrev millionths : ℕ → Value Micro
millionths n = float (some (pos n))

abbrev pub sample : (index at_ compute memory : ℕ) → Value Micro
sample index at_ compute memory = dict_of (
    ("sample_index", number index)
    ∷ ("observed_at_unix_ms", number at_)
    ∷ ("compute_ms", millionths 12_500_000)
    ∷ ("compute_gflops", millionths compute)
    ∷ ("memory_ms", millionths 3_000_000)
    ∷ ("memory_gbps", millionths memory)
    ∷ [])

abbrev pub samples : List (Value Micro)
samples =
    sample 0 1_800_000_001_000 1_000_000_000 500_000_000
    ∷ sample 1 1_800_000_002_500 900_000_000 480_000_000
    ∷ []

abbrev pub device : Fields Micro
device = fields_of (
    ("name", str "Test GPU")
    ∷ ("compute_capability_major", number 8)
    ∷ ("compute_capability_minor", number 6)
    ∷ ("global_memory_bytes", number 8_000_000_000)
    ∷ ("multiprocessor_count", number 40)
    ∷ ("memory_bus_width_bits", number 256)
    ∷ ("cuda_runtime_version", number 12040)
    ∷ ("cuda_driver_version", number 12040)
    ∷ [])

abbrev pub challenge_shape : Fields Micro
challenge_shape = fields_of (
    ("elements", number 1_048_576)
    ∷ ("compute_inner_iterations", number 512)
    ∷ ("warmup_iterations", number 3)
    ∷ ("measurement_iterations", number 2)
    ∷ [])

abbrev pub trace : Fields Micro
trace = fields_of (
    ("schema_version", str "gpu-trace/0.1")
    ∷ ("provenance", str recorded_real)
    ∷ ("capture_id", str "capture-1")
    ∷ ("contract_id", str "contract-001")
    ∷ ("session_id", str "session-001")
    ∷ ("runtime_profile_id", str "CUDA-TEST-RUNTIME-v0.1")
    ∷ ("benchmark_profile_id", str "GPU-SERVICE-CHALLENGE-v0.1")
    ∷ ("captured_at_unix_ms", number 1_800_000_003_000)
    ∷ (
      "collector",
      dict_of (
          ("name", str "north-standard-cuda-probe")
          ∷ ("authentication", str "LOCAL_SOFTWARE_ONLY")
          ∷ []),
    )
    ∷ ("device", dict device)
    ∷ ("challenge", dict challenge_shape)
    ∷ ("samples", list (items_of samples))
    ∷ [])

abbrev pub calibration : Fields Micro
calibration =
    calibration_of "calibration-1" (pos 1_800_000_003_000)
      (zero_digest, "CUDA-TEST-RUNTIME-v0.1", "GPU-SERVICE-CHALLENGE-v0.1") device
      (some (pos 950_000_000)) (some (pos 490_000_000)) 1 2 ("capture-1" ∷ [])

abbrev pub bound_calibration : Fields Micro
bound_calibration =
    put "challenge_profile" (dict (normalized_profile challenge_shape))
      (put "challenge_fingerprint" (str zero_digest) calibration)

abbrev pub parties : Parties Micro
parties = record {
  performance_min_score = some (pos 800_000);
  provider_id = "provider-demo";
  buyer_id = "buyer-demo";
  verifier_policy_id = "VERIFIER-v0.1";
  settlement_policy_id = "SETTLEMENT-v0.1";
}

abbrev pub recorded_contract : ComputeContract Micro
recorded_contract = record contract {
  contract_class_id = "RECORDED-ACCESSIBLE-GPU-v0.1";
  delivery_start = pos 1_800_000_001;
  duration_seconds = pos 60;
  sla_policy_id = "SLA-RECORDED-RESEARCH-v0.1";
}

abbrev entry : String → (index at_ compute memory score by_compute by_memory : ℕ) → Entry Micro
entry name index at_ compute memory score by_compute by_memory = record {
  evidence_id = name;
  evidence_type = challenge;
  observed_at = pos at_;
  payload =
      sample_payload
        (record {
          score = some (pos score);
          compute_ratio = some (pos by_compute);
          memory_ratio = some (pos by_memory);
        })
        (str "capture-1") (number index) (millionths compute) (millionths memory);
}

abbrev pub recorded_bundle : EvidenceBundle Micro
recorded_bundle = record {
  contract_id = "contract-001";
  session_id = "session-001";
  records =
      numbered recorded_contract "north-standard-recorded-harness"
        (common_provenance (str zero_digest) (str "calibration-1")) 1
        (fixed_entries recorded_contract (pos 1_800_000_001) device
          ++ (entry "recorded-challenge-capture-1-0" 0 1_800_000_001 1_000_000_000 500_000_000
                1_020_408 1_052_631 1_020_408
              ∷ entry "recorded-challenge-capture-1-1" 1 1_800_000_002 900_000_000 480_000_000
                  947_368 947_368 979_591
              ∷ []));
  schema_version = "evidence-bundle/0.1";
}
