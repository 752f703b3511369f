-- ===== src/Campaign/Trial.antt =====
-- src/north_standard/recorded_campaign.py: the trials of a campaign.
use north_standard.Base.{
  ℕ, suc, String, not, ◌||◌, none, some, List, [], ◌∷◌, filter, length, is_empty, Result, ok, err,
  recorded_real_error, type_error, value_error, ◌>>=◌, ◌>>◌, raise_if, map_result, ◌==◌,
}
use north_standard.Base.Int.{ℤ}
use north_standard.Value.{Float, Value, Fields, item, as_text, as_dict, to_float}
use north_standard.Canonical.{Hashing}
use north_standard.Models.{EvidenceBundle, Decision, challenge, is_type, semantic_hash, bundle_root}
use north_standard.Policy.{default_policy, check_policy}
use north_standard.Verifier.{verify}
use north_standard.Verifier.Performance.{min_of}
use north_standard.Experiments.{GroundTruth, Noise}
use north_standard.Recorded.{Measure}
use north_standard.Recorded.Calibration.{text_at, list_at, samples_of}
use north_standard.Recorded.Contract.{Parties, build_recorded_contract}
use north_standard.Recorded.Bundle.{build_recorded_bundle}
use north_standard.Recorded.Protocol.{Whole, validate_challenge_binding}
use north_standard.Campaign.{Files, load_json, load_traces, truth_of, validate_campaign_manifest}

-- What `_trial_measurements` returns.
pub record Measurements (F : Type 0) : Type 0 where
  pub challenge_count : ℕ
  pub min_normalized_score : F
  pub median_normalized_score : F
  pub median_compute_gflops : F
  pub median_memory_gbps : F
  pub median_challenge_runtime_ms : F
  pub total_challenge_runtime_ms : F

pub record RecordedTrialResult (F : Type 0) : Type 0 where
  pub campaign_id : String
  pub trial_id : String
  pub condition : String
  pub ground_truth : GroundTruth
  pub capture_ids : List String
  pub contract_hash : String
  pub evidence_bundle_root : String
  pub verifier_policy_id : String
  pub decision : Decision
  pub reason_codes : List String
  pub verifier_runtime_ns : ℤ
  pub measurements : Measurements F

module _ {F : Type 0} ⦃fl : Float F⦄ where
  -- `float(d[key])`
  abbrev pub float_at : String → Fields F → Result F
  float_at key d = item key d >>= to_float

-- the parameters that `build_recorded_contract` is called with
abbrev pub campaign_parties : {F : Type 0} → F → Parties F
campaign_parties floor = record {
  performance_min_score = floor;
  provider_id = "provider-local-recording";
  buyer_id = "buyer-local-recording";
  verifier_policy_id = "VERIFIER-v0.1";
  settlement_policy_id = "SETTLEMENT-v0.1";
}

module _ {F : Type 0} ⦃fl : Float F⦄ ⦃ms : Measure F⦄ ⦃ns : Noise F⦄ where
  -- `_trial_measurements`
  unfoldable pub trial_measurements : List (Fields F) → EvidenceBundle F → Result (Measurements F)
  trial_measurements traces bundle = do
    let challenges = filter (λ r. is_type r.evidence_type challenge) bundle.records
    scores ← map_result (λ r. float_at "score" r.payload) challenges
    samples ← samples_of traces
    compute ← map_result (float_at "compute_gflops") samples
    memory ← map_result (float_at "memory_gbps") samples
    runtimes ←
        map_result
          (λ s. float_at "compute_ms" s >>= λ x. float_at "memory_ms" s >>= λ y. ok (ns.add x y))
          samples
    raise_if
        (is_empty scores
          || not (length scores == length compute)
          || not (length scores == length runtimes))
        (recorded_real_error "recorded challenge measurement cardinality mismatch")
    least ← min_of scores
    ok (record {
      challenge_count = length scores;
      min_normalized_score = least;
      median_normalized_score = ms.median scores;
      median_compute_gflops = ms.median compute;
      median_memory_gbps = ms.median memory;
      median_challenge_runtime_ms = ms.median runtimes;
      total_challenge_runtime_ms = fl.sum runtimes;
    })

module _ {F : Type 0} ⦃fl : Float F⦄ ⦃ms : Measure F⦄ ⦃ns : Noise F⦄ ⦃ws : Whole F⦄ ⦃hs : Hashing F⦄
    ⦃fs : Files F⦄ where
  -- The body of the loop over the trials, with the difference of the two readings of the clock.
  unfoldable pub run_recorded_trial :
      (manifest calibration : Fields F)
      → (root : String) → (elapsed : ℤ) → Value F
      → Result (RecordedTrialResult F)
  run_recorded_trial manifest calibration root elapsed v = do
    trial ← as_dict v
    values ← list_at "trace_paths" trial
    paths ←
        map_result
          (λ p. elim (as_text p) [ none ↦ err type_error | some s ↦ ok (fs.resolve root s) ]) values
    traces ← load_traces paths
    validate_challenge_binding calibration traces
    floor ← float_at "performance_floor" manifest
    contract ← build_recorded_contract traces (campaign_parties floor)
    bundle ← build_recorded_bundle contract traces calibration "north-standard-recorded-harness"
    measured ← trial_measurements traces bundle
    policy ← check_policy (default_policy contract.verifier_policy_id)
    result ← verify contract bundle (some policy)
    campaign ← text_at "campaign_id" manifest
    trial_name ← text_at "trial_id" trial
    given_condition ← text_at "condition" trial
    truth_value ← item "ground_truth" trial
    truth ← elim (truth_of truth_value) [
      | none ↦ err (value_error "not a valid GroundTruth")
      | some g ↦ ok g
    ]
    captures ← map_result (text_at "capture_id") traces
    hashed ← semantic_hash contract
    bundle_hash ← bundle_root bundle
    ok (record {
      campaign_id = campaign;
      trial_id = trial_name;
      condition = given_condition;
      ground_truth = truth;
      capture_ids = captures;
      contract_hash = hashed;
      evidence_bundle_root = bundle_hash;
      verifier_policy_id = policy.policy_id;
      decision = result.decision;
      reason_codes = result.reason_codes;
      verifier_runtime_ns = elapsed;
      measurements = measured;
    })

  -- the loop over the trials; `clock k` is what the k-th run of the verifier took
  unfoldable pub run_recorded_trials :
      (manifest calibration : Fields F)
      → (root : String) → (clock : ℕ → ℤ) → ℕ
      → List (Value F)
      → Result (List (RecordedTrialResult F))
  run_recorded_trials manifest calibration root clock k [] = ok []
  run_recorded_trials manifest calibration root clock k (v ∷ vs) = do
    row ← run_recorded_trial manifest calibration root (clock k) v
    rows ← run_recorded_trials manifest calibration root clock (suc k) vs
    ok (row ∷ rows)

  unfoldable pub run_campaign :
      (manifest : Fields F)
      → (base_dir : String) → (clock : ℕ → ℤ) → Result (List (RecordedTrialResult F))
  run_campaign manifest base_dir clock = do
    validate_campaign_manifest manifest
    path ← text_at "calibration_path" manifest
    calibration ← load_json (fs.resolve base_dir path)
    trials ← list_at "trials" manifest
    run_recorded_trials manifest calibration base_dir clock 0 trials
