-- ===== src/Tests/Heldout.antt =====
-- The theorem on the trials of the two splits, at one trial of each scenario.
use north_standard.Base.{ok, err, false, true, ◌≡◌, refl, List, [], Result}
use north_standard.Base.Int.{ℤ, pos, ◌+ℤ◌, ◌-ℤ◌}
use north_standard.Base.Decimal.{decimal}
use north_standard.Base.Codes.{sorted_set}
use north_standard.Value.{is_hashable}
use north_standard.Canonical.{canonical_sha256, canonical_json, normalize}
use north_standard.Models.{
  check_contract, check_record, bundle_root, bundle_dict, semantic_hash, contract_dict,
  delivery_end,
}
use north_standard.Verifier.{verify, appraise, outcome}
use north_standard.Verifier.Availability.{availability_claim}
use north_standard.Verifier.Performance.{performance_claim, performance_metrics, judge_performance}
use north_standard.Verifier.Binding.{binding_claim}
use north_standard.Verifier.Runtime.{runtime_claim}
use north_standard.Verifier.Integrity.{
  bundle_integrity_errors, errors_from, sequence_key, window_errors,
}
use north_standard.Simulator.{
  simulate_scenario, demo_contract, make_record, healthy_records, alter_records, sort_records,
}
use north_standard.Experiments.{
  SyntheticCase, generate_case_evidence, performance_bundle, noisy_records, plain_evidence,
  outage_record,
}
use north_standard.Experiments.Trials.{TrialRecord, run_trial}
use north_standard.Partition.{SeedPartition, seeds_for, assert_disjoint, all_seeds}
use north_standard.Partition.Disjoint.{AllApart}
use north_standard.Partition.Heldout.{run_partition}
use north_standard.Partition.Heldout.Apart.{trial_seeds, run_partition-seeds}
use north_standard.Samples.{Micro, micro_float, sample_noise, sample_hashing, sketch}

abbrev single : SeedPartition
single = record {
  split_id = "single";
  calibration_base_seed = pos 0;
  heldout_base_seed = pos 100_000_000;
  calibration_trials_per_scenario = pos 1;
  heldout_trials_per_scenario = pos 1;
}

abbrev no_time : SyntheticCase → ℤ → ℤ
no_time c seed = pos 0

-- the value of a call that returned, and else no trials
abbrev trials_or_none :
    Result (List TrialRecord × List TrialRecord) → List TrialRecord × List TrialRecord
trials_or_none (ok ts) = ts
trials_or_none (err _) = ([], [])

abbrev single_trials : List TrialRecord × List TrialRecord
single_trials = trials_or_none (run_partition Micro no_time single)

single_run : run_partition Micro no_time single ≡ ok single_trials
unfolding run_partition assert_disjoint seeds_for run_trial generate_case_evidence
    performance_bundle noisy_records plain_evidence outage_record simulate_scenario demo_contract
    healthy_records alter_records make_record sort_records check_contract check_record verify ◌+ℤ◌
    ◌-ℤ◌ appraise availability_claim is_hashable performance_claim performance_metrics
    judge_performance binding_claim runtime_claim bundle_root canonical_sha256 canonical_json sketch
    normalize bundle_dict outcome bundle_integrity_errors sorted_set delivery_end errors_from
    sequence_key window_errors semantic_hash contract_dict decimal
single_run = refl

run_partition-seeds_example :
    (trial_seeds single_trials.0 ≡ all_seeds single false)
    × (trial_seeds single_trials.1 ≡ all_seeds single true)
    × AllApart (trial_seeds single_trials.0) (trial_seeds single_trials.1)
run_partition-seeds_example =
    run_partition-seeds Micro no_time single single_trials.0 single_trials.1 single_run
