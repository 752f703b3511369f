-- ===== src/Evaluators/Matrix.antt =====
-- src/north_standard/evaluators.py: the matrix of comparisons and its summary.
use north_standard.Base.{
  ℕ, zero, suc, ◌*◌, String, Bool, not, List, [], ◌∷◌, ◌++◌, map, filter, length, is_empty, Option,
  Result, ok, value_error, ◌>>=◌, ◌>>◌, raise_if, ◌==◌, if◌then◌else◌,
}
use north_standard.Base.Int.{ℤ, pos, pos_part, ◌+ℤ◌, ltb_ℤ}
use north_standard.Value.{Float}
use north_standard.Canonical.{Hashing}
use north_standard.Models.{
  ComputeContract, EvidenceBundle, Decision, accept, reject, inconclusive, is_decision,
}
use north_standard.Evaluators.{
  Evaluator, b0_self_report, b3_challenge_only, b5_external_probe_only, full, ablation_no_binding,
  ablation_no_telemetry, ablation_no_external_probe, ablation_no_abstention, evaluate,
}
use north_standard.Experiments.{
  SyntheticCase, synthetic_cases, GroundTruth, compliant, breach, is_truth, Noise, case_specs,
  generate_case_evidence,
}
use north_standard.Experiments.Summary.{rate}

pub record ComparisonRecord : Type 0 where
  pub experiment_id : String
  pub evaluator_id : Evaluator
  pub scenario : SyntheticCase
  pub attack_family : String
  pub ground_truth : GroundTruth
  pub seed : ℤ
  pub mode : String
  pub decision : Decision
  pub reason_codes : List String
  pub runtime_ns : ℤ

-- `DEFAULT_EVALUATORS`
abbrev pub default_evaluators : List Evaluator
default_evaluators =
    full ∷ b0_self_report ∷ b3_challenge_only ∷ b5_external_probe_only ∷ ablation_no_binding
    ∷ ablation_no_telemetry ∷ ablation_no_external_probe ∷ ablation_no_abstention ∷ []

abbrev evaluator_tag : Evaluator → ℕ
evaluator_tag b0_self_report = 1
evaluator_tag b3_challenge_only = 2
evaluator_tag b5_external_probe_only = 3
evaluator_tag full = 0
evaluator_tag ablation_no_binding = 4
evaluator_tag ablation_no_telemetry = 5
evaluator_tag ablation_no_external_probe = 6
evaluator_tag ablation_no_abstention = 7

abbrev is_evaluator : Evaluator → Evaluator → Bool
is_evaluator a b = evaluator_tag a == evaluator_tag b

-- `clock e c seed` is what the run of an evaluator on a case and a seed took.
module _ (F : Type 0) ⦃fl : Float F⦄ ⦃ns : Noise F⦄ ⦃hs : Hashing F⦄
    (clock : Evaluator → SyntheticCase → ℤ → ℤ) where
  -- the loop over the evaluators
  abbrev evaluator_rows :
      SyntheticCase
      → (given_seed : ℤ) → ComputeContract F
      → EvidenceBundle F
      → List Evaluator
      → Result (List ComparisonRecord)
  evaluator_rows c given_seed contract bundle [] = ok []
  evaluator_rows c given_seed contract bundle (e ∷ es) = do
    outcome ← evaluate e contract bundle
    rows ← evaluator_rows c given_seed contract bundle es
    ok (
        record {
          experiment_id = "synthetic-evaluator-comparison/0.1";
          evaluator_id = e;
          scenario = c;
          attack_family = (case_specs {F = F} c).attack_family;
          ground_truth = (case_specs {F = F} c).ground_truth;
          seed = given_seed;
          mode = "SYNTHETIC";
          decision = outcome.decision;
          reason_codes = outcome.reason_codes;
          runtime_ns = clock e c given_seed;
        }
        ∷ rows)

  -- the trials of one case
  abbrev case_rows :
      List Evaluator
      → SyntheticCase
      → (seed_base : ℤ) → (first count : ℕ) → Result (List ComparisonRecord)
  case_rows evaluators c seed_base first zero = ok []
  case_rows evaluators c seed_base first (suc count) = do
    (contract, bundle) ← generate_case_evidence {F = F} c (seed_base +ℤ pos first)
    rows ← evaluator_rows c (seed_base +ℤ pos first) contract bundle evaluators
    others ← case_rows evaluators c seed_base (suc first) count
    ok (rows ++ others)

  -- the loop over the cases
  abbrev matrix_rows :
      List Evaluator
      → (trials_per_scenario base_seed : ℤ) → (scenario_index : ℕ) → List SyntheticCase
      → Result (List ComparisonRecord)
  matrix_rows evaluators n base_seed k [] = ok []
  matrix_rows evaluators n base_seed k (c ∷ cs) = do
    rows ← case_rows evaluators c (base_seed +ℤ pos (k * 1_000_003)) 0 (pos_part n)
    others ← matrix_rows evaluators n base_seed (suc k) cs
    ok (rows ++ others)

  unfoldable pub run_comparison_matrix :
      (trials_per_scenario base_seed : ℤ) → List Evaluator → Result (List ComparisonRecord)
  run_comparison_matrix trials_per_scenario base_seed evaluators = do
    raise_if (ltb_ℤ trials_per_scenario (pos 1)) (value_error "trials_per_scenario must be >= 1")
    raise_if (ltb_ℤ base_seed (pos 0)) (value_error "base_seed must be non-negative")
    raise_if (is_empty evaluators) (value_error "at least one evaluator is required")
    matrix_rows evaluators trials_per_scenario base_seed 0 synthetic_cases

-- What `_metrics` returns.
pub record Metrics (F : Type 0) : Type 0 where
  pub total_trials : ℕ
  pub compliant_trials : ℕ
  pub breach_trials : ℕ
  pub false_accepts : ℕ
  pub false_rejects : ℕ
  pub inconclusive_trials : ℕ
  pub far : Option F
  pub frr : Option F
  pub inconclusive_rate : Option F
  pub decision_counts : List (Decision × ℕ)

abbrev rows_of_truth : GroundTruth → List ComparisonRecord → List ComparisonRecord
rows_of_truth g = filter λ row. is_truth row.ground_truth g

abbrev rows_of_decision : Decision → List ComparisonRecord → List ComparisonRecord
rows_of_decision d = filter λ row. is_decision row.decision d

-- the decisions in the order in which they come first
abbrev decisions_seen : List Decision → List Decision
decisions_seen [] = []
decisions_seen (d ∷ ds) = d ∷ filter (λ e. not (is_decision d e)) (decisions_seen ds)

-- `ratio a b` is the quotient `a / b` of two integers.
module _ {F : Type 0} (ratio : (numerator denominator : ℕ) → F) where
  -- `_metrics`
  unfoldable pub metrics : List ComparisonRecord → Metrics F
  metrics rows =
      let fair = rows_of_truth compliant rows in
      let breaches = rows_of_truth breach rows in
      let accepted = length (rows_of_decision accept breaches) in
      let rejected = length (rows_of_decision reject fair) in
      let abstained = length (rows_of_decision inconclusive rows) in
      record {
        total_trials = length rows;
        compliant_trials = length fair;
        breach_trials = length breaches;
        false_accepts = accepted;
        false_rejects = rejected;
        inconclusive_trials = abstained;
        far = rate ratio accepted (length breaches);
        frr = rate ratio rejected (length fair);
        inconclusive_rate = rate ratio abstained (length rows);
        decision_counts =
            map (λ d. (d, length (rows_of_decision d rows)))
              (decisions_seen (map (λ row. row.decision) rows));
      }

  -- the entries of some evaluators, of which those without a row are left out
  abbrev metrics_by : List ComparisonRecord → List Evaluator → List (Evaluator × Metrics F)
  metrics_by rows [] = []
  metrics_by rows (e ∷ es) =
      let own = filter (λ row. is_evaluator row.evaluator_id e) rows in
      let others = metrics_by rows es in if is_empty own then others else (e, metrics own) ∷ others

  -- the entry "evaluators" of `summarize_comparison`
  unfoldable pub summarize_comparison : List ComparisonRecord → List (Evaluator × Metrics F)
  summarize_comparison rows = metrics_by rows default_evaluators
