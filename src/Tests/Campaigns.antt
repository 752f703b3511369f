-- ===== src/Tests/Campaigns.antt =====
-- The theorems on campaigns, at two trials of the sample trace.
use Prim.Native.String.{◌++◌ as str_append}
use north_standard.Base.{◌+◌, String, some, [], ◌∷◌, ◌≡◌, refl, ok, if◌then◌else◌, str_eq}
use north_standard.Base.Int.{ℤ, pos, ◌+ℤ◌, ◌-ℤ◌}
use north_standard.Base.Decimal.{decimal}
use north_standard.Base.Codes.{sorted_set}
use north_standard.Value.{
  Value, str, float, texts, dict, dict_of, list, items_of, Fields, fields_of, is_hashable,
}
use north_standard.Canonical.{canonical_sha256, canonical_json, normalize}
use north_standard.Models.{
  check_contract, check_record, accept, bundle_root, bundle_dict, semantic_hash, contract_dict,
  delivery_end,
}
use north_standard.Policy.{check_policy}
use north_standard.Verifier.{verify, appraise, outcome}
use north_standard.Verifier.Availability.{availability_claim}
use north_standard.Verifier.Performance.{performance_claim, performance_metrics, judge_performance}
use north_standard.Verifier.Binding.{binding_claim}
use north_standard.Verifier.Runtime.{runtime_claim}
use north_standard.Verifier.Integrity.{
  bundle_integrity_errors, errors_from, sequence_key, window_errors,
}
use north_standard.Experiments.{GroundTruth, compliant, breach}
use north_standard.Recorded.{show_ℤ, required_string, required_int, positive_finite}
use north_standard.Recorded.Trace.{
  validate_trace, check_device, check_challenge, check_samples, check_sample, device_fingerprint,
}
use north_standard.Recorded.Calibration.{
  recorded_real, validate_calibration, ensure_trace_matches_calibration, score_sample,
}
use north_standard.Recorded.Contract.{build_recorded_contract, observed_seconds}
use north_standard.Recorded.Protocol.{
  challenge_profile, challenge_fingerprint, validate_challenge_binding,
}
use north_standard.Recorded.Bundle.{
  build_recorded_bundle, check_recorded, sample_entry, sample_entries, append_records,
  recorded_record,
}
use north_standard.Campaign.{
  Files, load_json, load_traces, validate_campaign_manifest, check_trial, check_trials,
}
use north_standard.Campaign.Trial.{
  RecordedTrialResult, trial_measurements, run_recorded_trial, run_recorded_trials, run_campaign,
}
use north_standard.Campaign.Blind.{judgement, labels_never_decide}
use north_standard.Samples.{
  Micro, micro_float, sample_hashing, sample_measure, sample_noise, sample_whole, sketch,
  zero_digest,
}
use north_standard.Tests.Traces.{trace, bound_calibration}

-- two files, of which one is the calibration
instance abbrev sample_files : Files Micro
sample_files = record {
  read_json = λ path.
      ok (if str_eq path "data/calibration.json" then dict bound_calibration else dict trace);
  resolve = λ base path. str_append base (str_append "/" path);
}

abbrev trial : (id condition truth : String) → Value Micro
trial id condition truth = dict_of (
    ("trial_id", str id)
    ∷ ("condition", str condition)
    ∷ ("ground_truth", str truth)
    ∷ ("trace_paths", texts ("trace.json" ∷ []))
    ∷ [])

abbrev healthy_trial : Value Micro
healthy_trial = trial "trial-1" "baseline" "COMPLIANT"

abbrev throttled_trial : Value Micro
throttled_trial = trial "trial-2" "throttled" "BREACH"

abbrev manifest : Fields Micro
manifest = fields_of (
    ("schema_version", str "recorded-campaign/0.1")
    ∷ ("mode", str recorded_real)
    ∷ ("campaign_id", str "campaign-1")
    ∷ ("calibration_path", str "calibration.json")
    ∷ ("performance_floor", float (some (pos 800_000)))
    ∷ ("trials", list (items_of (healthy_trial ∷ throttled_trial ∷ [])))
    ∷ [])

abbrev row : (id condition : String) → GroundTruth → ℤ → RecordedTrialResult Micro
row id given truth elapsed = record {
  campaign_id = "campaign-1";
  trial_id = id;
  condition = given;
  ground_truth = truth;
  capture_ids = "capture-1" ∷ [];
  contract_hash = zero_digest;
  evidence_bundle_root = zero_digest;
  verifier_policy_id = "VERIFIER-v0.1";
  decision = accept;
  reason_codes = [];
  verifier_runtime_ns = elapsed;
  measurements = record {
    challenge_count = 2;
    min_normalized_score = some (pos 947_368);
    median_normalized_score = some (pos 983_888);
    median_compute_gflops = some (pos 950_000_000);
    median_memory_gbps = some (pos 490_000_000);
    median_challenge_runtime_ms = some (pos 15_500_000);
    total_challenge_runtime_ms = some (pos 31_000_000);
  };
}

abbrev healthy_row : RecordedTrialResult Micro
healthy_row = row "trial-1" "baseline" compliant (pos 7)

abbrev throttled_row : RecordedTrialResult Micro
throttled_row = row "trial-2" "throttled" breach (pos 8)

campaign_run :
    run_campaign manifest "data" (λ k. pos (7 + k)) ≡ ok (healthy_row ∷ throttled_row ∷ [])
unfolding run_campaign run_recorded_trials run_recorded_trial trial_measurements load_json
    load_traces validate_campaign_manifest check_trial check_trials build_recorded_contract
    observed_seconds check_contract build_recorded_bundle check_recorded
    ensure_trace_matches_calibration validate_calibration validate_challenge_binding
    challenge_profile challenge_fingerprint check_policy semantic_hash contract_dict score_sample
    sample_entry sample_entries append_records recorded_record check_record device_fingerprint
    validate_trace check_device check_challenge check_samples check_sample required_string
    required_int positive_finite canonical_sha256 canonical_json normalize sketch show_ℤ decimal
    verify ◌+ℤ◌ ◌-ℤ◌ appraise availability_claim is_hashable performance_claim performance_metrics
    judge_performance binding_claim runtime_claim bundle_root bundle_dict outcome
    bundle_integrity_errors sorted_set delivery_end errors_from sequence_key window_errors
campaign_run = refl

healthy_run :
    run_recorded_trial manifest bound_calibration "data" (pos 7) healthy_trial ≡ ok healthy_row
unfolding run_campaign run_recorded_trials run_recorded_trial trial_measurements load_json
    load_traces validate_campaign_manifest check_trial check_trials build_recorded_contract
    observed_seconds check_contract build_recorded_bundle check_recorded
    ensure_trace_matches_calibration validate_calibration validate_challenge_binding
    challenge_profile challenge_fingerprint check_policy semantic_hash contract_dict score_sample
    sample_entry sample_entries append_records recorded_record check_record device_fingerprint
    validate_trace check_device check_challenge check_samples check_sample required_string
    required_int positive_finite canonical_sha256 canonical_json normalize sketch show_ℤ decimal
    verify ◌+ℤ◌ ◌-ℤ◌ appraise availability_claim is_hashable performance_claim performance_metrics
    judge_performance binding_claim runtime_claim bundle_root bundle_dict outcome
    bundle_integrity_errors sorted_set delivery_end errors_from sequence_key window_errors
healthy_run = refl

throttled_run :
    run_recorded_trial manifest bound_calibration "data" (pos 8) throttled_trial ≡ ok throttled_row
unfolding run_campaign run_recorded_trials run_recorded_trial trial_measurements load_json
    load_traces validate_campaign_manifest check_trial check_trials build_recorded_contract
    observed_seconds check_contract build_recorded_bundle check_recorded
    ensure_trace_matches_calibration validate_calibration validate_challenge_binding
    challenge_profile challenge_fingerprint check_policy semantic_hash contract_dict score_sample
    sample_entry sample_entries append_records recorded_record check_record device_fingerprint
    validate_trace check_device check_challenge check_samples check_sample required_string
    required_int positive_finite canonical_sha256 canonical_json normalize sketch show_ℤ decimal
    verify ◌+ℤ◌ ◌-ℤ◌ appraise availability_claim is_hashable performance_claim performance_metrics
    judge_performance binding_claim runtime_claim bundle_root bundle_dict outcome
    bundle_integrity_errors sorted_set delivery_end errors_from sequence_key window_errors
throttled_run = refl

labels_never_decide_example : judgement healthy_row ≡ judgement throttled_row
labels_never_decide_example =
    labels_never_decide manifest bound_calibration "data" (pos 7) (pos 8) healthy_trial
      throttled_trial healthy_row throttled_row refl healthy_run throttled_run
