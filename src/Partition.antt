-- ===== src/Partition.antt =====
-- src/north_standard/evaluation_protocol.py: the seeds of the calibration and of the held-out trials.
pub mod Disjoint
pub mod Wilson
pub mod Heldout
use north_standard.Base.{
  ℕ, zero, suc, ◌+◌, ◌*◌, String, Bool, true, false, not, ◌||◌, List, [], ◌∷◌, filter, any,
  is_empty, concat_map, Result, ok, value_error, ◌>>◌, raise_if, if◌then◌else◌,
}
use north_standard.Base.Int.{ℤ, pos, pos_part, ◌+ℤ◌, ltb_ℤ, eq_ℤ}
use north_standard.Experiments.{SyntheticCase, synthetic_cases, case_index}

pub record SeedPartition : Type 0 where
  pub split_id : String
  pub calibration_base_seed : ℤ
  pub heldout_base_seed : ℤ
  pub calibration_trials_per_scenario : ℤ
  pub heldout_trials_per_scenario : ℤ

-- `SeedPartition.__post_init__`
unfoldable pub check_partition : SeedPartition → Result SeedPartition
check_partition p = do
  raise_if (ltb_ℤ p.calibration_base_seed (pos 0) || ltb_ℤ p.heldout_base_seed (pos 0))
      (value_error "base seeds must be non-negative")
  raise_if
      (ltb_ℤ p.calibration_trials_per_scenario (pos 1)
        || ltb_ℤ p.heldout_trials_per_scenario (pos 1))
      (value_error "trial counts must be >= 1")
  raise_if (eq_ℤ p.calibration_base_seed p.heldout_base_seed)
      (value_error "calibration and held-out base seeds must differ")
  ok p

-- `[base + index for index in range(first, first + count)]`
abbrev pub seeds_from : ℤ → (first count : ℕ) → List ℤ
seeds_from base first zero = []
seeds_from base first (suc count) = (base +ℤ pos first) ∷ seeds_from base (suc first) count

abbrev pub base_of : SeedPartition → (heldout : Bool) → ℤ
base_of p true = p.heldout_base_seed
base_of p false = p.calibration_base_seed

abbrev pub trials_of : SeedPartition → (heldout : Bool) → ℤ
trials_of p true = p.heldout_trials_per_scenario
trials_of p false = p.calibration_trials_per_scenario

-- `SeedPartition.seeds_for`
unfoldable pub seeds_for : SeedPartition → SyntheticCase → (heldout : Bool) → List ℤ
seeds_for p c heldout =
    seeds_from (base_of p heldout +ℤ pos (case_index c * 1_000_003)) 0
      (pos_part (trials_of p heldout))

-- the seeds of all scenarios of a split
abbrev pub all_seeds : SeedPartition → (heldout : Bool) → List ℤ
all_seeds p heldout = concat_map (λ c. seeds_for p c heldout) synthetic_cases

-- `SeedPartition.assert_disjoint`
unfoldable pub assert_disjoint : SeedPartition → Result (Unit {0})
assert_disjoint p =
    let overlap = filter (λ s. any (eq_ℤ s) (all_seeds p true)) (all_seeds p false) in
    raise_if (not (is_empty overlap)) (value_error "calibration/held-out seed overlap")

-- `DEFAULT_PARTITION`
abbrev pub default_partition : SeedPartition
default_partition = record {
  split_id = "synthetic-v0.1-calibration-heldout";
  calibration_base_seed = pos 20_260_907;
  heldout_base_seed = pos 120_260_907;
  calibration_trials_per_scenario = pos 50;
  heldout_trials_per_scenario = pos 200;
}
