-- ===== src/Campaign/Summary.antt =====
-- src/north_standard/recorded_campaign.py, `campaign_summary`.
use north_standard.Base.{
  ℕ, ◌+◌, String, not, ◌||◌, ◌==◌, List, [], ◌∷◌, map, filter, length, is_empty, str_eq, Result, ok,
  err, value_error, ◌>>=◌, ◌>>◌, raise_if, map_result,
}
use north_standard.Base.Int.{pos}
use north_standard.Base.Codes.{sorted_set}
use north_standard.Value.{Float}
use north_standard.Models.{Decision, accept, reject, inconclusive, is_decision}
use north_standard.Verifier.Performance.{min_of}
use north_standard.Experiments.{GroundTruth, compliant, breach, is_truth, Noise}
use north_standard.Recorded.{Measure}
use north_standard.Challenges.{Scheduler}
use north_standard.Partition.Wilson.{WilsonInterval, Root, default_interval}
use north_standard.Campaign.Trial.{RecordedTrialResult}

-- What `_measurement_summary` returns.
pub record MeasurementSummary (F : Type 0) : Type 0 where
  pub trials : ℕ
  pub total_challenges : ℕ
  pub minimum_normalized_score : F
  pub median_trial_normalized_score : F
  pub median_trial_compute_gflops : F
  pub median_trial_memory_gbps : F
  pub median_trial_challenge_runtime_ms : F
  pub total_measured_challenge_runtime_ms : F

-- The entry of one condition; a dictionary of counts is the list of its items.
pub record ConditionSummary (F : Type 0) : Type 0 where
  pub condition : String
  pub trials : ℕ
  pub ground_truth_counts : List (GroundTruth × ℕ)
  pub decision_counts : List (Decision × ℕ)
  pub measurement : MeasurementSummary F

-- What `campaign_summary` reports, less its constants.
pub record CampaignSummary (F : Type 0) : Type 0 where
  pub campaign_id : String
  pub total_trials : ℕ
  pub compliant_trials : ℕ
  pub breach_trials : ℕ
  pub far : WilsonInterval F
  pub frr : WilsonInterval F
  pub inconclusive_rate : WilsonInterval F
  pub inconclusive_rate_compliant : WilsonInterval F
  pub inconclusive_rate_breach : WilsonInterval F
  pub measurement : MeasurementSummary F
  pub per_condition : List (ConditionSummary F)

abbrev total : List ℕ → ℕ
total [] = 0
total (n ∷ ns) = n + total ns

-- a `Counter`, of the keys that are there
abbrev present : List (Decision × ℕ) → List (Decision × ℕ)
present = filter λ p. not (p.1 == 0)

module _ {F : Type 0} where
  abbrev pub trials_of_truth :
      GroundTruth → List (RecordedTrialResult F) → List (RecordedTrialResult F)
  trials_of_truth g = filter λ row. is_truth row.ground_truth g

  abbrev pub trials_of_decision :
      Decision → List (RecordedTrialResult F) → List (RecordedTrialResult F)
  trials_of_decision d = filter λ row. is_decision row.decision d

  abbrev truths_seen : List (RecordedTrialResult F) → List GroundTruth
  truths_seen [] = []
  truths_seen (row ∷ rows) =
      row.ground_truth ∷ filter (λ g. not (is_truth row.ground_truth g)) (truths_seen rows)

module _ {F : Type 0} ⦃fl : Float F⦄ ⦃ms : Measure F⦄ where
  -- `_measurement_summary`
  unfoldable pub measurement_summary : List (RecordedTrialResult F) → Result (MeasurementSummary F)
  measurement_summary selected = do
    least ← min_of (map (λ row. row.measurements.min_normalized_score) selected)
    ok (record {
      trials = length selected;
      total_challenges = total (map (λ row. row.measurements.challenge_count) selected);
      minimum_normalized_score = least;
      median_trial_normalized_score =
          ms.median (map (λ row. row.measurements.median_normalized_score) selected);
      median_trial_compute_gflops =
          ms.median (map (λ row. row.measurements.median_compute_gflops) selected);
      median_trial_memory_gbps =
          ms.median (map (λ row. row.measurements.median_memory_gbps) selected);
      median_trial_challenge_runtime_ms =
          ms.median (map (λ row. row.measurements.median_challenge_runtime_ms) selected);
      total_measured_challenge_runtime_ms =
          fl.sum (map (λ row. row.measurements.total_challenge_runtime_ms) selected);
    })

  -- the entry of a condition; the decision counts are sorted by the values of the decisions
  abbrev condition_summary : List (RecordedTrialResult F) → String → Result (ConditionSummary F)
  condition_summary rows name = do
    let selected = filter (λ row. str_eq row.condition name) rows
    measured ← measurement_summary selected
    ok (record {
      condition = name;
      trials = length selected;
      ground_truth_counts =
          map (λ g. (g, length (trials_of_truth g selected))) (truths_seen selected);
      decision_counts = present (
          map (λ d. (d, length (trials_of_decision d selected)))
            (accept ∷ inconclusive ∷ reject ∷ []));
      measurement = measured;
    })

module _ {F : Type 0} ⦃fl : Float F⦄ ⦃ms : Measure F⦄ ⦃ns : Noise F⦄ ⦃sc : Scheduler F⦄
    ⦃rt : Root F⦄ where
  -- `_interval`, of a part of the trials
  abbrev interval_of : (part whole : List (RecordedTrialResult F)) → Result (WilsonInterval F)
  interval_of part whole = default_interval (pos (length part)) (pos (length whole))

  unfoldable pub campaign_summary : List (RecordedTrialResult F) → Result (CampaignSummary F)
  campaign_summary [] = err (value_error "recorded campaign rows must not be empty")
  campaign_summary (first ∷ others) = do
    let rows = first ∷ others
    let fair = trials_of_truth compliant rows
    let breaches = trials_of_truth breach rows
    raise_if (is_empty fair || is_empty breaches)
        (value_error "summary requires both compliant and breach trials")
    conditions ← map_result (condition_summary rows) (sorted_set (map (λ row. row.condition) rows))
    accepted ← interval_of (trials_of_decision accept breaches) breaches
    rejected ← interval_of (trials_of_decision reject fair) fair
    open_ ← interval_of (trials_of_decision inconclusive rows) rows
    open_fair ← interval_of (trials_of_decision inconclusive fair) fair
    open_breaches ← interval_of (trials_of_decision inconclusive breaches) breaches
    measured ← measurement_summary rows
    ok (record {
      campaign_id = first.campaign_id;
      total_trials = length rows;
      compliant_trials = length fair;
      breach_trials = length breaches;
      far = accepted;
      frr = rejected;
      inconclusive_rate = open_;
      inconclusive_rate_compliant = open_fair;
      inconclusive_rate_breach = open_breaches;
      measurement = measured;
      per_condition = conditions;
    })
