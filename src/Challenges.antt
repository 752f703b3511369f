-- ===== src/Challenges.antt =====
-- src/north_standard/challenge_experiment.py: the schedules of the challenges, and what the provider
-- can predict of them.
pub mod Inside
pub mod Evidence
pub mod Trial
pub mod Summary
pub mod Sensitivity
use north_standard.Base.{
  ℕ, zero, suc, ◌+◌, ◌-◌, String, Bool, not, ◌||◌, ◌&&◌, any, Option, List, [], ◌∷◌, map, filter,
  length, Result, ok, err, value_error, overflow_error, or_raise, ◌>>=◌, ◌>>◌, raise_if,
  if◌then◌else◌,
}
use north_standard.Base.Int.{ℤ, pos, negsuc, pos_part, ◌+ℤ◌, ◌-ℤ◌, ltb_ℤ, leb_ℤ, eq_ℤ}
use north_standard.Value.{Float}
use north_standard.Experiments.{Noise}
use north_standard.Simulator.{min_ℤ}

pub data ChallengeSchedule : Type 0 where
  fixed_periodic public_jitter hidden_jitter hidden_uniform : ChallengeSchedule

-- `list(ChallengeSchedule)`
abbrev pub challenge_schedules : List ChallengeSchedule
challenge_schedules = fixed_periodic ∷ public_jitter ∷ hidden_jitter ∷ hidden_uniform ∷ []

-- `schedule.value`
abbrev pub schedule_value : ChallengeSchedule → String
schedule_value fixed_periodic = "fixed_periodic"
schedule_value public_jitter = "public_jitter"
schedule_value hidden_jitter = "hidden_jitter"
schedule_value hidden_uniform = "hidden_uniform"

pub record ChallengeExperimentConfig (F : Type 0) : Type 0 where
  pub delivery_seconds : ℤ
  pub challenge_count : ℤ
  pub honesty_radius_seconds : ℤ
  pub jitter_seconds : ℤ
  pub honest_score : F
  pub cheat_score : F

-- `int_div a b` is `a / b`, `none` where it is too great for a float, and `round_int x` is `round(x)` of
-- a finite float. `randint seed low high k` is the result of the call `randint(low, high)` of
-- `Random(seed)` after k others, and `sample_range seed low high n` is its `sample(range(low, high), n)`.
pub record Scheduler (F : Type 0) : Type 0 where
  pub int_div : ℤ → ℤ → Option F
  pub round_int : F → ℤ
  pub randint : (seed low high : ℤ) → ℕ → ℤ
  pub sample_range : (seed low high : ℤ) → (count : ℤ) → Result (List ℤ)

abbrev pub max_ℤ : ℤ → ℤ → ℤ
max_ℤ a b = if ltb_ℤ a b then b else a

abbrev pub abs_ℤ : ℤ → ℤ
abs_ℤ (pos n) = pos n
abs_ℤ (negsuc n) = pos (suc n)

abbrev pub opposite : ℤ → ℤ
opposite n = pos 0 -ℤ n

-- `range(n)`, from a first number on
abbrev pub count_from : (first n : ℕ) → List ℕ
count_from first zero = []
count_from first (suc n) = first ∷ count_from (suc first) n

-- `range(start, stop)`
abbrev pub range_ℤ : (start stop : ℤ) → List ℤ
range_ℤ start stop = map (λ i. start +ℤ pos i) (count_from 0 (pos_part (stop -ℤ start)))

insert_time : ℤ → List ℤ → List ℤ
insert_time t [] = t ∷ []
insert_time t (u ∷ us) = if ltb_ℤ u t then u ∷ insert_time t us else t ∷ u ∷ us

-- `sorted`, on integers
unfoldable pub sort_times : List ℤ → List ℤ
unfolding insert_time
sort_times [] = []
sort_times (t ∷ ts) = insert_time t (sort_times ts)

-- `seconds.update(ts)`, of a set
abbrev pub update : List ℤ → List ℤ → List ℤ
update seen [] = seen
update seen (t ∷ ts) = update (if any (eq_ℤ t) seen then seen else t ∷ seen) ts

-- `_is_honest_at`
unfoldable pub is_honest_at :
    (challenge_time : ℤ) → (predicted_times : List ℤ) → (radius : ℤ) → Bool
is_honest_at challenge_time predicted_times radius =
    any (λ predicted. leb_ℤ (abs_ℤ (challenge_time -ℤ predicted)) radius) predicted_times

module _ {F : Type 0} ⦃fl : Float F⦄ where
  -- `ChallengeExperimentConfig()`
  abbrev pub default_config : ChallengeExperimentConfig F
  default_config = record {
    delivery_seconds = pos 600;
    challenge_count = pos 6;
    honesty_radius_seconds = pos 5;
    jitter_seconds = pos 20;
    honest_score = fl.lit 95 2;
    cheat_score = fl.lit 55 2;
  }

  -- `ChallengeExperimentConfig.__post_init__`; `0 <= x` holds of no NaN
  unfoldable pub check_config : ChallengeExperimentConfig F → Result (ChallengeExperimentConfig F)
  check_config config = do
    raise_if (ltb_ℤ config.delivery_seconds (pos 60)) (value_error "delivery_seconds must be >= 60")
    raise_if (ltb_ℤ config.challenge_count (pos 2)) (value_error "challenge_count must be >= 2")
    raise_if (ltb_ℤ config.honesty_radius_seconds (pos 0))
        (value_error "honesty_radius_seconds must be non-negative")
    raise_if (ltb_ℤ config.jitter_seconds config.honesty_radius_seconds)
        (value_error "jitter_seconds must be >= honesty_radius_seconds")
    raise_if
        (not (
          (fl.lt (fl.lit 0 0) config.cheat_score || fl.is_zero config.cheat_score)
          && fl.lt config.cheat_score config.honest_score))
        (value_error "scores must satisfy 0 <= cheat_score < honest_score")
    ok config

module _ {F : Type 0} where
  -- `_clamp_time`
  unfoldable pub clamp_time : ℤ → ChallengeExperimentConfig F → ℤ
  clamp_time value config = max_ℤ (pos 1) (min_ℤ (config.delivery_seconds -ℤ pos 1) value)

  -- `honest_seconds`
  unfoldable pub honest_seconds : (predicted_times : List ℤ) → ChallengeExperimentConfig F → List ℤ
  honest_seconds predicted_times config = seconds_after [] predicted_times
    where
      seconds_after : List ℤ → List ℤ → List ℤ
      seconds_after seen [] = seen
      seconds_after seen (predicted ∷ others) =
          let start = max_ℤ (pos 0) (predicted -ℤ config.honesty_radius_seconds) in
          let end_ = min_ℤ config.delivery_seconds (predicted +ℤ config.honesty_radius_seconds) in
          seconds_after (update seen (range_ℤ start (end_ +ℤ pos 1))) others

module _ {F : Type 0} ⦃fl : Float F⦄ ⦃ns : Noise F⦄ ⦃sc : Scheduler F⦄ where
  -- `_fixed_times`
  unfoldable pub fixed_times : ChallengeExperimentConfig F → Result (List ℤ)
  fixed_times config = do
    step ←
        or_raise (sc.int_div config.delivery_seconds (config.challenge_count +ℤ pos 1))
          overflow_error
    ok (
        map (λ index. sc.round_int (ns.mul step (fl.lit (index + 1) 0)))
          (count_from 0 (pos_part config.challenge_count)))

  -- the jittered times, by the number of the calls of the generator before
  abbrev pub jittered : (seed : ℤ) → ChallengeExperimentConfig F → ℕ → List ℤ → List ℤ
  jittered seed config k [] = []
  jittered seed config k (base ∷ bases) =
      clamp_time (base +ℤ sc.randint seed (opposite config.jitter_seconds) config.jitter_seconds k)
        config
      ∷ jittered seed config (suc k) bases

  -- The actual times, and those that the provider can predict.
  unfoldable pub challenge_times :
      ChallengeSchedule → (seed : ℤ) → ChallengeExperimentConfig F → Result (List ℤ × List ℤ)
  challenge_times fixed_periodic seed config = do fixed ← fixed_times config; ok (fixed, fixed)
  challenge_times public_jitter seed config = do
    fixed ← fixed_times config
    let actual = sort_times (jittered seed config 0 fixed)
    ok (actual, actual)
  challenge_times hidden_jitter seed config = do
    fixed ← fixed_times config
    ok (sort_times (jittered seed config 0 fixed), fixed)
  challenge_times hidden_uniform seed config = do
    fixed ← fixed_times config
    drawn ← sc.sample_range seed (pos 1) config.delivery_seconds config.challenge_count
    ok (sort_times drawn, fixed)

  -- `_estimated_cheat_fraction`
  unfoldable pub estimated_cheat_fraction :
      (predicted_times : List ℤ) → ChallengeExperimentConfig F → Result F
  estimated_cheat_fraction predicted_times config = do
    let honest =
        min_ℤ (pos (length (honest_seconds predicted_times config))) config.delivery_seconds
    share ← or_raise (sc.int_div honest config.delivery_seconds) overflow_error
    let fraction = ns.sub (fl.lit 1 0) share
    ok (ns.round_to (if fl.lt (fl.lit 0 0) fraction then fraction else fl.lit 0 0) 6)
