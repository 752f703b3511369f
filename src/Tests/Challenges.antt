-- ===== src/Tests/Challenges.antt =====
-- The theorems on the challenge experiment at the default configuration.
use mathlib.Core.List.{Perm}
use north_standard.Base.{
  none, List, [], ◌∷◌, ◌≡◌, refl, ok, err, inl, inr, arith, All, length, map, Result,
}
use north_standard.Base.Int.{◌≤ℤ◌, ℤ, pos, ◌+ℤ◌, ◌-ℤ◌}
use north_standard.Base.Decimal.{decimal}
use north_standard.Models.{check_contract, check_record}
use north_standard.Simulator.{
  simulate_scenario, demo_contract, make_record, healthy_records, alter_records, sort_records,
}
use north_standard.Recorded.{show_ℤ}
use north_standard.Challenges.{
  ChallengeExperimentConfig, default_config, public_jitter, hidden_jitter, challenge_times,
  fixed_times, clamp_time, sort_times, is_honest_at, honest_seconds, estimated_cheat_fraction,
}
use north_standard.Challenges.Inside.{IsInside, AreRising, challenge_times-IsInside}
use north_standard.Challenges.Evidence.{
  Generated, challenge_record, challenge_records, generate_challenge_aware_bundle,
}
use north_standard.Challenges.Evidence.Breaches.{
  honest_at, predictable_looks_honest, hidden_breaches,
}
use north_standard.Challenges.Evidence.Sent.{seen, left_at, far}
use north_standard.Value.{is_hashable}
use north_standard.Base.Codes.{sorted_set}
use north_standard.Canonical.{canonical_sha256, canonical_json, normalize}
use north_standard.Models.{bundle_root, bundle_dict, delivery_end}
use north_standard.Verifier.{verify, appraise, outcome}
use north_standard.Verifier.Availability.{availability_claim}
use north_standard.Verifier.Performance.{performance_claim, performance_metrics, judge_performance}
use north_standard.Verifier.Binding.{binding_claim}
use north_standard.Verifier.Runtime.{runtime_claim}
use north_standard.Verifier.Integrity.{
  bundle_integrity_errors, errors_from, sequence_key, window_errors,
}
use north_standard.Challenges.{check_config, fixed_periodic}
use north_standard.Challenges.Trial.{run_challenge_trial}
use north_standard.Challenges.Sensitivity.{
  SensitivityCell, grid_points, run_cells, run_cell, run_sensitivity_grid,
}
use north_standard.Challenges.Sensitivity.Counts.{IsCounted, run_sensitivity_grid-IsCounted}
use north_standard.Samples.{
  sample_hashing, sketch, Micro, micro_float, sample_noise, sample_scheduler,
}
use north_standard.Tests.Bundles.{contract, healthy}

abbrev config : ChallengeExperimentConfig Micro
config = default_config

abbrev fixed : List ℤ
fixed = pos 86 ∷ pos 171 ∷ pos 257 ∷ pos 343 ∷ pos 429 ∷ pos 514 ∷ []

abbrev moved : List ℤ
moved = pos 66 ∷ pos 152 ∷ pos 239 ∷ pos 326 ∷ pos 413 ∷ pos 499 ∷ []

times_jittered : challenge_times public_jitter (pos 1) config ≡ ok (moved, moved)
unfolding challenge_times fixed_times clamp_time sort_times ◌+ℤ◌ ◌-ℤ◌
times_jittered = refl

challenge_times-IsInside_example :
    All (IsInside config) moved × AreRising moved × (length moved ≡ 6)
challenge_times-IsInside_example =
    challenge_times-IsInside config (pos 1) public_jitter moved moved (inl refl) times_jittered
      (omega arith)

-- the value of a call that returned, and else a given one
abbrev value_or : Generated Micro → Result (Generated Micro) → Generated Micro
value_or g (ok made) = made
value_or g (err _) = g

abbrev nothing : Generated Micro
nothing = record {
  contract = contract;
  bundle = healthy;
  actual_times = [];
  predicted_times = [];
  breach_count = 0;
  cheat_fraction = none;
}

abbrev public_evidence : Generated Micro
public_evidence = value_or nothing (generate_challenge_aware_bundle public_jitter (pos 1) config)

abbrev hidden_evidence : Generated Micro
hidden_evidence = value_or nothing (generate_challenge_aware_bundle hidden_jitter (pos 1) config)

public_generated : generate_challenge_aware_bundle public_jitter (pos 1) config ≡ ok public_evidence
unfolding generate_challenge_aware_bundle simulate_scenario demo_contract check_contract make_record
    check_record healthy_records alter_records sort_records challenge_times fixed_times clamp_time
    sort_times challenge_records challenge_record is_honest_at honest_seconds
    estimated_cheat_fraction show_ℤ decimal ◌+ℤ◌ ◌-ℤ◌
public_generated = refl

hidden_generated : generate_challenge_aware_bundle hidden_jitter (pos 1) config ≡ ok hidden_evidence
unfolding generate_challenge_aware_bundle simulate_scenario demo_contract check_contract make_record
    check_record healthy_records alter_records sort_records challenge_times fixed_times clamp_time
    sort_times challenge_records challenge_record is_honest_at honest_seconds
    estimated_cheat_fraction show_ℤ decimal ◌+ℤ◌ ◌-ℤ◌
hidden_generated = refl

hidden_count : hidden_evidence.breach_count ≡ 6
unfolding generate_challenge_aware_bundle simulate_scenario demo_contract check_contract make_record
    check_record healthy_records alter_records sort_records challenge_times fixed_times clamp_time
    sort_times challenge_records challenge_record is_honest_at honest_seconds
    estimated_cheat_fraction show_ℤ decimal ◌+ℤ◌ ◌-ℤ◌
hidden_count = refl

predictable_looks_honest_example :
    Perm
      (seen public_evidence.bundle.records)
      (map (honest_at public_evidence.contract config) public_evidence.actual_times)
    × (public_evidence.breach_count ≡ 0)
predictable_looks_honest_example =
    predictable_looks_honest (pos 1) config public_jitter public_evidence (inr refl) (omega arith)
      public_generated

fixed-known : fixed_times config ≡ ok fixed
unfolding fixed_times ◌+ℤ◌ ◌-ℤ◌
fixed-known = refl

hidden_breaches_example :
    (challenge_times hidden_jitter (pos 1) config ≡ ok (hidden_evidence.actual_times, fixed))
    × Perm
        (seen hidden_evidence.bundle.records)
        (map (left_at hidden_evidence.contract config fixed) hidden_evidence.actual_times)
    × (hidden_evidence.breach_count ≡ length (far config fixed hidden_evidence.actual_times))
hidden_breaches_example =
    hidden_breaches (pos 1) config hidden_jitter hidden_evidence fixed (inl refl) fixed-known
      hidden_generated

-- a grid of one cell with two trials, and a point that is left out
abbrev one_cell : SensitivityCell
one_cell = record {
  schedule = fixed_periodic;
  challenge_count = pos 2;
  honesty_radius_seconds = pos 5;
  jitter_seconds = pos 20;
  trials = pos 2;
  false_accepts = 2;
  detected_rejects = 0;
  inconclusive_trials = 0;
}

grid_run :
    run_sensitivity_grid Micro
      (pos 2 ∷ [])
      (pos 5 ∷ pos 30 ∷ [])
      (pos 20 ∷ [])
      (pos 2)
      (pos 0)
      (fixed_periodic ∷ [])
    ≡ ok (one_cell ∷ [])
unfolding run_sensitivity_grid grid_points run_cells run_cell check_config run_challenge_trial
    generate_challenge_aware_bundle simulate_scenario demo_contract check_contract make_record
    check_record healthy_records alter_records sort_records challenge_times fixed_times clamp_time
    sort_times challenge_records challenge_record is_honest_at honest_seconds
    estimated_cheat_fraction show_ℤ decimal verify appraise availability_claim is_hashable
    performance_claim performance_metrics judge_performance binding_claim runtime_claim bundle_root
    canonical_sha256 canonical_json sketch normalize bundle_dict outcome bundle_integrity_errors
    sorted_set delivery_end errors_from sequence_key window_errors ◌+ℤ◌ ◌-ℤ◌
grid_run = refl

run_sensitivity_grid-IsCounted_example : All (IsCounted (pos 2)) (one_cell ∷ []) × (pos 1 ≤ℤ pos 2)
run_sensitivity_grid-IsCounted_example =
    run_sensitivity_grid-IsCounted Micro (pos 2) (pos 0) (pos 2 ∷ []) (pos 5 ∷ pos 30 ∷ [])
      (pos 20 ∷ []) (fixed_periodic ∷ []) (one_cell ∷ []) grid_run
