-- ===== src/Experiments/Plain.antt =====
-- The trials of the cases without a performance mean.
use north_standard.Base.{none, ◌≡◌, false, arith, ok}
use north_standard.Base.Int.{ℤ, ◌+ℤ◌, ◌-ℤ◌}
use north_standard.Value.{Float}
use north_standard.Canonical.{Hashing}
use north_standard.Models.{Decision, reject, inconclusive, check_contract, check_record}
use north_standard.Verifier.{verify, appraise, outcome}
use north_standard.Verifier.Availability.{availability_claim}
use north_standard.Verifier.Performance.{performance_claim}
use north_standard.Base.Codes.{sorted_set}
use north_standard.Value.{is_hashable}
use north_standard.Models.{delivery_end}
use north_standard.Verifier.Performance.{performance_metrics, judge_performance}
use north_standard.Verifier.Binding.{binding_claim}
use north_standard.Verifier.Runtime.{runtime_claim}
use north_standard.Verifier.Integrity.{
  bundle_integrity_errors, errors_from, sequence_key, window_errors,
}
use north_standard.Simulator.{simulate_scenario}
use north_standard.Experiments.{
  Noise, GroundTruth, compliant, breach, SyntheticCase, case_specs, healthy_variance,
  marginal_healthy, mild_throttle, severe_throttle, replayed_evidence, buyer_network_failure,
  provider_outage, telemetry_gap, generate_case_evidence, plain_evidence, outage_record,
}
use north_standard.Experiments.Trials.{TrialRecord, run_trial}

-- The decision that a case without a performance mean is built for.
abbrev pub expected : GroundTruth → Decision
expected breach = reject
expected compliant = inconclusive

-- What the comparison of floats does on the literals of the simulator: the scores 0.96, 1.01 and 0.93
-- are not less than the floor 0.80.
abbrev pub ScoresPass : (F : Type 0) → Float F → Type 0
ScoresPass F fl =
    (fl.lt (fl.lit 96 2) (fl.lit 80 2) ≡ false)
    × (fl.lt (fl.lit 101 2) (fl.lit 80 2) ≡ false)
    × (fl.lt (fl.lit 93 2) (fl.lit 80 2) ≡ false)

module _ (F : Type 0) ⦃fl : Float F⦄ ⦃ns : Noise F⦄ ⦃hs : Hashing F⦄ where
  -- Where the scores of the simulator are not below its floor, a trial that returns, of a case without
  -- a performance mean, rejects where the ground truth is a breach and is inconclusive where it is
  -- compliant, whatever the seed.
  pub plain_trial_decides :
      ScoresPass F fl
      → (c : SyntheticCase) (seed elapsed : ℤ) (t : TrialRecord)
      → (case_specs {F = F} c).hidden_performance_mean ≡ none
      → run_trial F c seed elapsed ≡ ok t
      → t.decision ≡ expected (case_specs {F = F} c).ground_truth
  unfolding run_trial generate_case_evidence plain_evidence outage_record simulate_scenario
      check_contract check_record ◌+ℤ◌ ◌-ℤ◌ verify appraise availability_claim performance_claim
      outcome binding_claim runtime_claim performance_metrics judge_performance
      bundle_integrity_errors errors_from sequence_key window_errors sorted_set delivery_end
      is_hashable
  plain_trial_decides pass healthy_variance seed elapsed t plain h = cc
  plain_trial_decides pass marginal_healthy seed elapsed t plain h = cc
  plain_trial_decides pass mild_throttle seed elapsed t plain h = cc
  plain_trial_decides pass severe_throttle seed elapsed t plain h = cc
  plain_trial_decides pass replayed_evidence seed elapsed t plain h = ground arith
  plain_trial_decides pass buyer_network_failure seed elapsed t plain h = ground arith
  plain_trial_decides pass provider_outage seed elapsed t plain h = ground arith
  plain_trial_decides pass telemetry_gap seed elapsed t plain h = ground arith
