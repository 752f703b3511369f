-- ===== src/Challenges/Trial.antt =====
-- src/north_standard/challenge_experiment.py: the trials.
use north_standard.Base.{
  ℕ, suc, ◌*◌, String, List, [], ◌∷◌, ◌++◌, none, Result, ok, value_error, ◌>>=◌, ◌>>◌, raise_if,
  map_result,
}
use north_standard.Base.Int.{ℤ, pos, ◌+ℤ◌, ltb_ℤ, pos_part}
use north_standard.Value.{Float}
use north_standard.Canonical.{Hashing}
use north_standard.Models.{Decision}
use north_standard.Verifier.{verify}
use north_standard.Experiments.{Noise}
use north_standard.Challenges.{
  ChallengeSchedule, challenge_schedules, ChallengeExperimentConfig, Scheduler, count_from,
}
use north_standard.Challenges.Evidence.{generate_challenge_aware_bundle}

pub record ChallengeTrial (F : Type 0) : Type 0 where
  pub schedule : ChallengeSchedule
  pub seed : ℤ
  pub decision : Decision
  pub reason_codes : List String
  pub actual_challenge_times : List ℤ
  pub attacker_predicted_times : List ℤ
  pub breach_challenges : ℕ
  pub challenge_count : ℤ
  pub estimated_cheat_fraction : F

module _ {F : Type 0} ⦃fl : Float F⦄ ⦃ns : Noise F⦄ ⦃sc : Scheduler F⦄ ⦃hs : Hashing F⦄ where
  unfoldable pub run_challenge_trial :
      ChallengeSchedule → (seed : ℤ) → ChallengeExperimentConfig F → Result (ChallengeTrial F)
  run_challenge_trial given_schedule given_seed config = do
    made ← generate_challenge_aware_bundle given_schedule given_seed config
    result ← verify made.contract made.bundle none
    ok (record {
      schedule = given_schedule;
      seed = given_seed;
      decision = result.decision;
      reason_codes = result.reason_codes;
      actual_challenge_times = made.actual_times;
      attacker_predicted_times = made.predicted_times;
      breach_challenges = made.breach_count;
      challenge_count = config.challenge_count;
      estimated_cheat_fraction = made.cheat_fraction;
    })

  -- the loop over the schedules
  abbrev schedule_rows :
      (trials_per_schedule base_seed : ℤ)
      → ChallengeExperimentConfig F
      → (schedule_index : ℕ) → List ChallengeSchedule
      → Result (List (ChallengeTrial F))
  schedule_rows trials base_seed config k [] = ok []
  schedule_rows trials base_seed config k (s ∷ ss) = do
    let seed_base = base_seed +ℤ pos (k * 1_000_003)
    rows ←
        map_result (λ i. run_challenge_trial s (seed_base +ℤ pos i) config)
          (count_from 0 (pos_part trials))
    others ← schedule_rows trials base_seed config (suc k) ss
    ok (rows ++ others)

  unfoldable pub run_challenge_matrix :
      (trials_per_schedule base_seed : ℤ)
      → ChallengeExperimentConfig F
      → Result (List (ChallengeTrial F))
  run_challenge_matrix trials_per_schedule base_seed config = do
    raise_if (ltb_ℤ trials_per_schedule (pos 1)) (value_error "trials_per_schedule must be >= 1")
    raise_if (ltb_ℤ base_seed (pos 0)) (value_error "base_seed must be non-negative")
    schedule_rows trials_per_schedule base_seed config 0 challenge_schedules
