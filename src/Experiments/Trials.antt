-- ===== src/Experiments/Trials.antt =====
-- src/north_standard/experiments.py: the trials.
use north_standard.Base.{
  ℕ, zero, suc, ◌*◌, String, List, [], ◌∷◌, ◌++◌, none, Result, ok, value_error, ◌>>=◌, ◌>>◌,
  raise_if,
}
use north_standard.Base.Int.{ℤ, pos, pos_part, ◌+ℤ◌, ltb_ℤ}
use north_standard.Value.{Float}
use north_standard.Canonical.{Hashing}
use north_standard.Models.{Decision, semantic_hash, bundle_root}
use north_standard.Verifier.{verify}
use north_standard.Experiments.{
  GroundTruth, SyntheticCase, Noise, synthetic_cases, case_specs, case_value,
  generate_case_evidence,
}

pub record TrialRecord : Type 0 where
  pub experiment_id : String
  pub scenario : String
  pub attack_family : String
  pub ground_truth : GroundTruth
  pub seed : ℤ
  pub mode : String
  pub contract_hash : String
  pub evidence_bundle_root : String
  pub verifier_policy_id : String
  pub decision : Decision
  pub reason_codes : List String
  pub verifier_runtime_ns : ℤ

module _ (F : Type 0) ⦃fl : Float F⦄ ⦃ns : Noise F⦄ ⦃hs : Hashing F⦄ where
  -- `run_trial`, with the difference of the two readings of the clock
  unfoldable pub run_trial : SyntheticCase → (given_seed elapsed : ℤ) → Result TrialRecord
  run_trial c given_seed elapsed = do
    (contract, bundle) ← generate_case_evidence {F = F} c given_seed
    result ← verify contract bundle none
    hashed ← semantic_hash contract
    root ← bundle_root bundle
    ok (record {
      experiment_id = "synthetic-smoke/0.1";
      scenario = case_value c;
      attack_family = (case_specs {F = F} c).attack_family;
      ground_truth = (case_specs {F = F} c).ground_truth;
      seed = given_seed;
      mode = "SYNTHETIC";
      contract_hash = hashed;
      evidence_bundle_root = root;
      verifier_policy_id = result.verifier_policy_id;
      decision = result.decision;
      reason_codes = result.reason_codes;
      verifier_runtime_ns = elapsed;
    })

  -- the trials of one case, at rising seeds; `clock` is what the trial of a case and a seed took
  abbrev pub case_trials :
      (clock : SyntheticCase → ℤ → ℤ)
      → SyntheticCase
      → (seed_base : ℤ) → (first count : ℕ) → Result (List TrialRecord)
  case_trials clock c seed_base first zero = ok []
  case_trials clock c seed_base first (suc count) = do
    let given_seed = seed_base +ℤ pos first
    t ← run_trial c given_seed (clock c given_seed)
    ts ← case_trials clock c seed_base (suc first) count
    ok (t ∷ ts)

  -- the loop over the cases
  abbrev pub matrix_trials :
      (clock : SyntheticCase → ℤ → ℤ)
      → (trials_per_scenario base_seed : ℤ) → (scenario_index : ℕ) → List SyntheticCase
      → Result (List TrialRecord)
  matrix_trials clock n base_seed k [] = ok []
  matrix_trials clock n base_seed k (c ∷ cs) = do
    ts ← case_trials clock c (base_seed +ℤ pos (k * 1_000_003)) 0 (pos_part n)
    others ← matrix_trials clock n base_seed (suc k) cs
    ok (ts ++ others)

  unfoldable pub run_matrix :
      (clock : SyntheticCase → ℤ → ℤ)
      → (trials_per_scenario base_seed : ℤ) → Result (List TrialRecord)
  run_matrix clock trials_per_scenario base_seed = do
    raise_if (ltb_ℤ trials_per_scenario (pos 1)) (value_error "trials_per_scenario must be >= 1")
    raise_if (ltb_ℤ base_seed (pos 0)) (value_error "base_seed must be non-negative")
    matrix_trials clock trials_per_scenario base_seed 0 synthetic_cases
