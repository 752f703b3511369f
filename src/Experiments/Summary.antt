-- ===== src/Experiments/Summary.antt =====
-- src/north_standard/experiments.py, `summarize`: the counts and rates over the trials.
use north_standard.Base.{
  ℕ, zero, suc, String, List, [], ◌∷◌, not, map, length, filter, Option, none, some, str_eq,
}
use north_standard.Models.{Decision, accept, reject, inconclusive, is_decision}
use north_standard.Experiments.{
  GroundTruth, compliant, breach, is_truth, synthetic_cases, case_value,
}
use north_standard.Experiments.Trials.{TrialRecord}

-- What `summarize` reports, less its constants. A dictionary of counts is the list of its items.
pub record Summary (F : Type 0) : Type 0 where
  pub total_trials : ℕ
  pub compliant_trials : ℕ
  pub breach_trials : ℕ
  pub false_accepts : ℕ
  pub false_rejects : ℕ
  pub inconclusive_trials : ℕ
  pub far : Option F
  pub frr : Option F
  pub inconclusive_rate : Option F
  pub inconclusive_rate_compliant : Option F
  pub inconclusive_rate_breach : Option F
  pub decision_counts : List (Decision × ℕ)
  pub per_scenario_decision_counts : List (String × List (Decision × ℕ))

abbrev pub of_truth : GroundTruth → List TrialRecord → List TrialRecord
of_truth g = filter λ t. is_truth t.ground_truth g

abbrev pub of_decision : Decision → List TrialRecord → List TrialRecord
of_decision d = filter λ t. is_decision t.decision d

-- the keys of a `Counter`, in the order in which they come first
abbrev first_seen : List Decision → List Decision
first_seen [] = []
first_seen (d ∷ ds) = d ∷ filter (λ e. not (is_decision d e)) (first_seen ds)

-- `dict(Counter(trial.decision.value for trial in rows))`
abbrev pub count_decisions : List TrialRecord → List (Decision × ℕ)
count_decisions rows =
    map (λ d. (d, length (of_decision d rows))) (first_seen (map (λ t. t.decision) rows))

-- `ratio a b` is the quotient `a / b` of two integers.
module _ {F : Type 0} (ratio : (numerator denominator : ℕ) → F) where
  -- `_rate`
  abbrev pub rate : (numerator denominator : ℕ) → Option F
  rate a zero = none
  rate a (suc b) = some (ratio a (suc b))

  unfoldable pub summarize : List TrialRecord → Summary F
  summarize trials =
      let total = length trials in
      let fair = of_truth compliant trials in
      let breaches = of_truth breach trials in
      let accepted = length (of_decision accept breaches) in
      let rejected = length (of_decision reject fair) in
      let abstained = length (of_decision inconclusive trials) in
      record {
        total_trials = total;
        compliant_trials = length fair;
        breach_trials = length breaches;
        false_accepts = accepted;
        false_rejects = rejected;
        inconclusive_trials = abstained;
        far = rate accepted (length breaches);
        frr = rate rejected (length fair);
        inconclusive_rate = rate abstained total;
        inconclusive_rate_compliant = rate (length (of_decision inconclusive fair)) (length fair);
        inconclusive_rate_breach =
            rate (length (of_decision inconclusive breaches)) (length breaches);
        decision_counts = count_decisions trials;
        per_scenario_decision_counts =
            map
              (λ c. (
                case_value c,
                count_decisions (filter (λ t. str_eq t.scenario (case_value c)) trials),
              ))
              synthetic_cases;
      }
