-- ===== src/Challenges/Summary.antt =====
-- src/north_standard/challenge_experiment.py, `summarize_challenge_matrix`.
use north_standard.Base.{
  ℕ, Bool, List, [], ◌∷◌, map, length, filter, is_empty, ◌==◌, Result, ok, ◌>>=◌, overflow_error,
  or_raise, if◌then◌else◌,
}
use north_standard.Base.Int.{ℤ, pos}
use north_standard.Value.{Float}
use north_standard.Models.{Decision, accept, reject, inconclusive, is_decision}
use north_standard.Recorded.{Measure}
use north_standard.Challenges.{
  ChallengeSchedule, fixed_periodic, public_jitter, hidden_jitter, hidden_uniform,
  challenge_schedules, ChallengeExperimentConfig, Scheduler,
}
use north_standard.Challenges.Trial.{ChallengeTrial}

-- the entry of one schedule
pub record ScheduleSummary (F : Type 0) : Type 0 where
  pub schedule : ChallengeSchedule
  pub trials : ℕ
  pub false_accepts : ℕ
  pub detected_rejects : ℕ
  pub inconclusive_trials : ℕ
  pub false_accept_rate : F
  pub detection_rate : F
  pub inconclusive_rate : F
  pub challenge_count : ℤ
  pub challenge_density_per_hour : F
  pub mean_estimated_cheat_fraction : F

abbrev schedule_tag : ChallengeSchedule → ℕ
schedule_tag fixed_periodic = 0
schedule_tag public_jitter = 1
schedule_tag hidden_jitter = 2
schedule_tag hidden_uniform = 3

abbrev pub is_schedule : ChallengeSchedule → ChallengeSchedule → Bool
is_schedule a b = schedule_tag a == schedule_tag b

module _ {F : Type 0} where
  abbrev pub of_schedule : ChallengeSchedule → List (ChallengeTrial F) → List (ChallengeTrial F)
  of_schedule s = filter λ row. is_schedule row.schedule s

  -- `counts.get(decision.value, 0)`
  abbrev pub count_of : Decision → List (ChallengeTrial F) → ℕ
  count_of d rows = length (filter (λ row. is_decision row.decision d) rows)

module _ {F : Type 0} ⦃fl : Float F⦄ ⦃ms : Measure F⦄ ⦃sc : Scheduler F⦄ where
  abbrev over : (a b : ℤ) → Result F
  over a b = or_raise (sc.int_div a b) overflow_error

  unfoldable pub summarize_schedule :
      ChallengeExperimentConfig F
      → ChallengeSchedule
      → List (ChallengeTrial F)
      → Result (ScheduleSummary F)
  summarize_schedule config s selected = do
    let total = pos (length selected)
    accepted ← over (pos (count_of accept selected)) total
    rejected ← over (pos (count_of reject selected)) total
    open_ ← over (pos (count_of inconclusive selected)) total
    hours ← over config.delivery_seconds (pos 3600)
    count ← or_raise (fl.of_int config.challenge_count) overflow_error
    ok (record {
      schedule = s;
      trials = length selected;
      false_accepts = count_of accept selected;
      detected_rejects = count_of reject selected;
      inconclusive_trials = count_of inconclusive selected;
      false_accept_rate = accepted;
      detection_rate = rejected;
      inconclusive_rate = open_;
      challenge_count = config.challenge_count;
      challenge_density_per_hour = ms.div count hours;
      mean_estimated_cheat_fraction =
          fl.div_count (fl.sum (map (λ row. row.estimated_cheat_fraction) selected))
            (length selected);
    })

  -- the loop over the schedules, of which those without a trial are left out
  abbrev summarize_schedules :
      ChallengeExperimentConfig F
      → List (ChallengeTrial F)
      → List ChallengeSchedule
      → Result (List (ScheduleSummary F))
  summarize_schedules config rows [] = ok []
  summarize_schedules config rows (s ∷ ss) =
      let others = summarize_schedules config rows ss in
      let both : Result (List (ScheduleSummary F)) = do
        one ← summarize_schedule config s (of_schedule s rows)
        rest ← others
        ok (one ∷ rest)
      in if is_empty (of_schedule s rows) then others else both

  -- the entry "schedules" of `summarize_challenge_matrix`
  unfoldable pub summarize_challenge_matrix :
      List (ChallengeTrial F) → ChallengeExperimentConfig F → Result (List (ScheduleSummary F))
  summarize_challenge_matrix rows config = summarize_schedules config rows challenge_schedules
