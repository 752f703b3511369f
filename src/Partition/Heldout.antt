-- ===== src/Partition/Heldout.antt =====
-- src/north_standard/evaluation_protocol.py: the trials of the two splits, and the summary of the
-- held-out ones.
pub mod Apart
use north_standard.Base.{
  ℕ, String, Bool, true, false, List, [], ◌∷◌, ◌++◌, filter, length, is_empty, str_eq,
  if◌then◌else◌, Result, ok, err, value_error, ◌>>=◌, ◌>>◌, raise_if, map_result,
}
use north_standard.Base.Int.{ℤ, pos}
use north_standard.Value.{Float}
use north_standard.Canonical.{Hashing}
use north_standard.Models.{Decision, accept, reject, inconclusive, is_decision}
use north_standard.Experiments.{
  SyntheticCase, synthetic_cases, case_value, Noise, compliant, breach,
}
use north_standard.Experiments.Trials.{TrialRecord, run_trial}
use north_standard.Experiments.Summary.{of_truth, of_decision}
use north_standard.Recorded.{Measure}
use north_standard.Challenges.{Scheduler}
use north_standard.Partition.{SeedPartition, seeds_for, assert_disjoint}
use north_standard.Partition.Wilson.{WilsonInterval, Root, default_interval}

module _ (F : Type 0) ⦃fl : Float F⦄ ⦃ns : Noise F⦄ ⦃hs : Hashing F⦄
    (clock : SyntheticCase → ℤ → ℤ) where
  -- the trials of one case in one of the splits
  abbrev pub split_trials :
      SeedPartition → (heldout : Bool) → SyntheticCase → Result (List TrialRecord)
  split_trials partition heldout c =
      map_result (λ given. run_trial F c given (clock c given)) (seeds_for partition c heldout)

  -- the loop over the cases
  abbrev pub partition_trials :
      SeedPartition → List SyntheticCase → Result (List TrialRecord × List TrialRecord)
  partition_trials partition [] = ok ([], [])
  partition_trials partition (c ∷ cs) = do
    calibration ← split_trials partition false c
    heldout ← split_trials partition true c
    (calibrations, heldouts) ← partition_trials partition cs
    ok (calibration ++ calibrations, heldout ++ heldouts)

  -- The calibration trials and the held-out trials; `clock` is what a trial took.
  unfoldable pub run_partition : SeedPartition → Result (List TrialRecord × List TrialRecord)
  run_partition partition = do assert_disjoint partition; partition_trials partition synthetic_cases

-- the entry of one scenario
pub record ScenarioSummary (F : Type 0) : Type 0 where
  pub scenario : String
  pub trials : ℕ
  pub accepts : ℕ
  pub rejects : ℕ
  pub abstains : ℕ
  pub inconclusive_interval : WilsonInterval F

-- What `heldout_summary` reports, less its constants and the dictionary of the partition.
pub record HeldoutSummary (F : Type 0) : Type 0 where
  pub heldout_trials : ℕ
  pub compliant_trials : ℕ
  pub breach_trials : ℕ
  pub far : WilsonInterval F
  pub frr : WilsonInterval F
  pub inconclusive_rate : WilsonInterval F
  pub inconclusive_rate_compliant : WilsonInterval F
  pub inconclusive_rate_breach : WilsonInterval F
  pub per_scenario : List (ScenarioSummary F)

module _ {F : Type 0} ⦃fl : Float F⦄ ⦃ms : Measure F⦄ ⦃ns : Noise F⦄ ⦃sc : Scheduler F⦄
    ⦃rt : Root F⦄ where
  -- `_interval`, of a part of the trials
  abbrev interval_of : (part whole : List TrialRecord) → Result (WilsonInterval F)
  interval_of part whole = default_interval (pos (length part)) (pos (length whole))

  -- the loop over the scenarios, of which those without a trial are left out
  abbrev scenario_summaries :
      List TrialRecord → List SyntheticCase → Result (List (ScenarioSummary F))
  scenario_summaries rows [] = ok []
  scenario_summaries rows (c ∷ cs) =
      let selected = filter (λ row. str_eq row.scenario (case_value c)) rows in
      let others = scenario_summaries rows cs in
      let both : Result (List (ScenarioSummary F)) = do
        open_ ← interval_of (of_decision inconclusive selected) selected
        rest ← others
        ok (
            record {
              scenario = case_value c;
              trials = length selected;
              accepts = length (of_decision accept selected);
              rejects = length (of_decision reject selected);
              abstains = length (of_decision inconclusive selected);
              inconclusive_interval = open_;
            }
            ∷ rest)
      in if is_empty selected then others else both

  unfoldable pub heldout_summary : List TrialRecord → SeedPartition → Result (HeldoutSummary F)
  heldout_summary heldout partition = do
    raise_if (is_empty heldout) (value_error "heldout trials must not be empty")
    let fair = of_truth compliant heldout
    let breaches = of_truth breach heldout
    scenarios ← scenario_summaries heldout synthetic_cases
    assert_disjoint partition
    accepted ← interval_of (of_decision accept breaches) breaches
    rejected ← interval_of (of_decision reject fair) fair
    open_ ← interval_of (of_decision inconclusive heldout) heldout
    open_fair ← interval_of (of_decision inconclusive fair) fair
    open_breaches ← interval_of (of_decision inconclusive breaches) breaches
    ok (record {
      heldout_trials = length heldout;
      compliant_trials = length fair;
      breach_trials = length breaches;
      far = accepted;
      frr = rejected;
      inconclusive_rate = open_;
      inconclusive_rate_compliant = open_fair;
      inconclusive_rate_breach = open_breaches;
      per_scenario = scenarios;
    })
