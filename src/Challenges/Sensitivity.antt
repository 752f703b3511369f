-- ===== src/Challenges/Sensitivity.antt =====
-- src/north_standard/challenge_sensitivity.py: the grid of configurations.
pub mod Counts
use north_standard.Base.{
  ℕ, zero, suc, ◌+◌, ◌*◌, String, Bool, ◌||◌, any, true, false, List, [], ◌∷◌, ◌++◌, map, length,
  filter, is_empty, Result, ok, err, value_error, ◌>>=◌, ◌>>◌, raise_if, map_result,
}
use north_standard.Base.Int.{ℤ, pos, pos_part, ◌+ℤ◌, ltb_ℤ}
use north_standard.Value.{Float}
use north_standard.Canonical.{Hashing}
use north_standard.Models.{Decision, accept, reject, inconclusive, is_decision}
use north_standard.Experiments.{Noise}
use north_standard.Challenges.{
  ChallengeSchedule, fixed_periodic, hidden_jitter, hidden_uniform, ChallengeExperimentConfig,
  Scheduler, default_config, check_config, count_from,
}
use north_standard.Challenges.Trial.{ChallengeTrial, run_challenge_trial}

pub record SensitivityCell : Type 0 where
  pub schedule : ChallengeSchedule
  pub challenge_count : ℤ
  pub honesty_radius_seconds : ℤ
  pub jitter_seconds : ℤ
  pub trials : ℤ
  pub false_accepts : ℕ
  pub detected_rejects : ℕ
  pub inconclusive_trials : ℕ

-- A point of the grid.
pub record Point : Type 0 where
  pub schedule : ChallengeSchedule
  pub challenge_count : ℤ
  pub radius : ℤ
  pub jitter : ℤ

-- `sum(item == d for item in decisions)`
abbrev pub count_decision : Decision → List Decision → ℕ
count_decision d decisions = length (filter (λ item. is_decision item d) decisions)

-- the points in the order of the nested loops
abbrev with_jitters : ChallengeSchedule → (count radius : ℤ) → List ℤ → List Point
with_jitters s count r [] = []
with_jitters s count r (j ∷ js) =
    record { schedule = s; challenge_count = count; radius = r; jitter = j }
    ∷ with_jitters s count r js

abbrev with_radii : ChallengeSchedule → (count : ℤ) → (radii jitters : List ℤ) → List Point
with_radii s count [] jitters = []
with_radii s count (r ∷ rs) jitters =
    with_jitters s count r jitters ++ with_radii s count rs jitters

abbrev with_counts : ChallengeSchedule → (counts radii jitters : List ℤ) → List Point
with_counts s [] radii jitters = []
with_counts s (n ∷ ns) radii jitters =
    with_radii s n radii jitters ++ with_counts s ns radii jitters

unfoldable pub grid_points : List ChallengeSchedule → (counts radii jitters : List ℤ) → List Point
grid_points [] counts radii jitters = []
grid_points (s ∷ ss) counts radii jitters =
    with_counts s counts radii jitters ++ grid_points ss counts radii jitters

module _ (F : Type 0) ⦃fl : Float F⦄ ⦃ns : Noise F⦄ ⦃sc : Scheduler F⦄ ⦃hs : Hashing F⦄ where
  -- the cell of one point, from its place among the cells on
  unfoldable pub run_cell :
      (trials_per_cell base_seed : ℤ) → (cell_index : ℕ) → Point → Result SensitivityCell
  run_cell trials_per_cell base_seed cell_index p = do
    config ← check_config (record (default_config {F = F}) {
      challenge_count = p.challenge_count;
      honesty_radius_seconds = p.radius;
      jitter_seconds = p.jitter;
    })
    let seed_base = base_seed +ℤ pos (cell_index * 1_000_003)
    decisions ←
        map_result
          (λ i. run_challenge_trial p.schedule (seed_base +ℤ pos i) config >>= λ t. ok t.decision)
          (count_from 0 (pos_part trials_per_cell))
    ok (record {
      schedule = p.schedule;
      challenge_count = p.challenge_count;
      honesty_radius_seconds = p.radius;
      jitter_seconds = p.jitter;
      trials = trials_per_cell;
      false_accepts = count_decision accept decisions;
      detected_rejects = count_decision reject decisions;
      inconclusive_trials = count_decision inconclusive decisions;
    })

  -- The loop over the points, of which those with a jitter below the radius are left out.
  unfoldable pub run_cells :
      (trials_per_cell base_seed : ℤ)
      → (cell_index : ℕ) → List Point
      → Result (List SensitivityCell)
  run_cells trials_per_cell base_seed cell_index [] = ok []
  run_cells trials_per_cell base_seed cell_index (p ∷ ps) = elim (ltb_ℤ p.jitter p.radius) [
    | true ↦ run_cells trials_per_cell base_seed cell_index ps
    | false ↦ run_cell trials_per_cell base_seed cell_index p >>= λ cell.
        run_cells trials_per_cell base_seed (suc cell_index) ps >>= λ cells. ok (cell ∷ cells)
  ]

  unfoldable pub run_sensitivity_grid :
      (challenge_counts honesty_radii_seconds jitter_values_seconds : List ℤ)
      → (trials_per_cell base_seed : ℤ) → List ChallengeSchedule
      → Result (List SensitivityCell)
  run_sensitivity_grid counts radii jitters trials_per_cell base_seed schedules = do
    raise_if (ltb_ℤ trials_per_cell (pos 1)) (value_error "trials_per_cell must be >= 1")
    raise_if (ltb_ℤ base_seed (pos 0)) (value_error "base_seed must be non-negative")
    raise_if (is_empty counts || is_empty radii || is_empty jitters || is_empty schedules)
        (value_error "sensitivity axes must not be empty")
    raise_if (any (λ n. ltb_ℤ n (pos 2)) counts) (value_error "challenge counts must be >= 2")
    raise_if (any (λ n. ltb_ℤ n (pos 0)) radii) (value_error "honesty radii must be non-negative")
    raise_if (any (λ n. ltb_ℤ n (pos 0)) jitters) (value_error "jitter values must be non-negative")
    run_cells trials_per_cell base_seed 0 (grid_points schedules counts radii jitters)

-- What `summarize_sensitivity` reports of the cells, less its constants and the cells themselves.
pub record SensitivitySummary : Type 0 where
  pub cell_count : ℕ
  pub fixed_periodic_cells : ℕ
  pub hidden_schedule_cells : ℕ

abbrev is_fixed : ChallengeSchedule → Bool
is_fixed fixed_periodic = true
is_fixed _ = false

abbrev is_hidden : ChallengeSchedule → Bool
is_hidden hidden_jitter = true
is_hidden hidden_uniform = true
is_hidden _ = false

unfoldable pub summarize_sensitivity : List SensitivityCell → Result SensitivitySummary
summarize_sensitivity cells = do
  raise_if (is_empty cells) (value_error "sensitivity grid must not be empty")
  ok (record {
    cell_count = length cells;
    fixed_periodic_cells =
        length (filter (λ (cell : SensitivityCell). is_fixed cell.schedule) cells);
    hidden_schedule_cells =
        length (filter (λ (cell : SensitivityCell). is_hidden cell.schedule) cells);
  })
