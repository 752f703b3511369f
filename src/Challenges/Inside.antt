-- ===== src/Challenges/Inside.antt =====
-- The times of the jittered challenges.
use mathlib.Core.Path.{subst}
use north_standard.Base.{
  ℕ, zero, suc, List, [], ◌∷◌, map, length, ◌≡◌, ◌⊎◌, inl, inr, refl, ◌∙◌, ap, arith, All, All-map,
  ok, >>=-eq-ok_then, ok-injective, or_raise, overflow_error, Bool-cases,
}
use north_standard.Base.Int.{ℤ, pos, pos_part, ◌≤ℤ◌, ◌<ℤ◌, -ℤ_parts, ltb_ℤ}
use north_standard.Value.{Float}
use north_standard.Experiments.{Noise}
use north_standard.Challenges.{
  ChallengeSchedule, fixed_periodic, public_jitter, hidden_jitter, hidden_uniform,
  ChallengeExperimentConfig, Scheduler, insert_time, sort_times, count_from, clamp_time,
  fixed_times, jittered, challenge_times,
}

-- No time is later than one after it.
abbrev pub AreRising : List ℤ → Type 0
AreRising [] = Unit
AreRising (t ∷ ts) = All (λ u. t ≤ℤ u) ts × AreRising ts

All-insert_time {κ} :
    (P : ℤ → Type κ) (t : ℤ) (ts : List ℤ) → P t → All P ts → All P (insert_time t ts)
unfolding insert_time
All-insert_time P t [] p h = (p, tt)
All-insert_time P t (u ∷ us) p (q, h) = elim (Bool-cases (ltb_ℤ u t)) [
  | inl e ↦ rw e (q, All-insert_time P t us p h)
  | inr e ↦ rw e (p, (q, h))
]

All-sort_times {κ} : (P : ℤ → Type κ) (ts : List ℤ) → All P ts → All P (sort_times ts)
unfolding sort_times
All-sort_times P [] h = tt
All-sort_times P (t ∷ ts) (p, h) = All-insert_time P t (sort_times ts) p (All-sort_times P ts h)

insert_time-AreRising : (t : ℤ) (ts : List ℤ) → AreRising ts → AreRising (insert_time t ts)
unfolding insert_time
insert_time-AreRising t [] h = (tt, tt)
insert_time-AreRising t (u ∷ us) (a, h) = elim (Bool-cases (ltb_ℤ u t)) [
  | inl e ↦
      rw e (All-insert_time (λ w. u ≤ℤ w) t us (ground (arith, e)) a, insert_time-AreRising t us h)
  | inr e ↦
      let first : t ≤ℤ u = ground (arith, e) in
      rw e ((first, All-map (λ w k. omega (arith, first, k)) us a), (a, h))
]

sort_times-AreRising : (ts : List ℤ) → AreRising (sort_times ts)
unfolding sort_times
sort_times-AreRising [] = tt
sort_times-AreRising (t ∷ ts) = insert_time-AreRising t (sort_times ts) (sort_times-AreRising ts)

length-insert_time : (t : ℤ) (ts : List ℤ) → length (insert_time t ts) ≡ suc (length ts)
unfolding insert_time
length-insert_time t [] = refl
length-insert_time t (u ∷ us) = ground (arith, length-insert_time t us)

length-sort_times : (ts : List ℤ) → length (sort_times ts) ≡ length ts
unfolding sort_times
length-sort_times [] = refl
length-sort_times (t ∷ ts) = length-insert_time t (sort_times ts) ∙ ap suc (length-sort_times ts)

length-map {ℓ κ} :
    {A : Type ℓ} {B : Type κ} (f : A → B) (xs : List A) → length (map f xs) ≡ length xs
length-map f [] = refl
length-map f (x ∷ xs) = ap suc (length-map f xs)

length-count_from : (k n : ℕ) → length (count_from k n) ≡ n
length-count_from k zero = refl
length-count_from k (suc n) = ap suc (length-count_from (suc k) n)

module _ {F : Type 0} (config : ChallengeExperimentConfig F) where
  -- The time lies in the delivery, and at neither of its ends.
  abbrev pub IsInside : ℤ → Type 0
  IsInside t = (pos 1 ≤ℤ t) × (t <ℤ config.delivery_seconds)

  clamp_time-IsInside : (t : ℤ) → pos 2 ≤ℤ config.delivery_seconds → IsInside (clamp_time t config)
  unfolding clamp_time
  clamp_time-IsInside t h =
      let parts = -ℤ_parts config.delivery_seconds (pos 1) in
      (ground (arith, h, parts), ground (arith, h, parts))

module _ {F : Type 0} ⦃fl : Float F⦄ ⦃ns : Noise F⦄ ⦃sc : Scheduler F⦄
    (config : ChallengeExperimentConfig F) (seed : ℤ) where
  jittered-IsInside :
      (k : ℕ) (ts : List ℤ)
      → pos 2 ≤ℤ config.delivery_seconds
      → All (IsInside config) (jittered seed config k ts)
  jittered-IsInside k [] h = tt
  jittered-IsInside k (t ∷ ts) h = (clamp_time-IsInside config _ h, jittered-IsInside (suc k) ts h)

  length-jittered : (k : ℕ) (ts : List ℤ) → length (jittered seed config k ts) ≡ length ts
  length-jittered k [] = refl
  length-jittered k (t ∷ ts) = ap suc (length-jittered (suc k) ts)

  length-fixed_times :
      (ts : List ℤ) → fixed_times config ≡ ok ts → length ts ≡ pos_part config.challenge_count
  unfolding fixed_times
  length-fixed_times ts h =
      >>=-eq-ok_then (or_raise (sc.int_div _ _) overflow_error) _ ts h (λ step _ e.
        subst (λ us. length us ≡ pos_part config.challenge_count) (ok-injective _ _ e)
          (length-map _ _ ∙ length-count_from 0 (pos_part config.challenge_count)))

  -- the times are inside the delivery, in order, and as many as asked for
  abbrev AreGood : List ℤ → Type 0
  AreGood ts =
      All (IsInside config) ts × AreRising ts × (length ts ≡ pos_part config.challenge_count)

  jittered_times :
      (ts : List ℤ)
      → fixed_times config ≡ ok ts
      → pos 2 ≤ℤ config.delivery_seconds
      → All (IsInside config) (sort_times (jittered seed config 0 ts))
        × AreRising (sort_times (jittered seed config 0 ts))
        × (length (sort_times (jittered seed config 0 ts)) ≡ pos_part config.challenge_count)
  jittered_times ts h d = (
    All-sort_times (IsInside config) _ (jittered-IsInside 0 ts d),
    sort_times-AreRising (jittered seed config 0 ts),
    length-sort_times (jittered seed config 0 ts) ∙ length-jittered 0 ts ∙ length-fixed_times ts h,
  )

  -- The jittered challenges, public or hidden, are as many as the configuration asks for, stand in
  -- rising order, and all fall inside the delivery, at neither of its ends, where the delivery takes at
  -- least two seconds; whatever the generator draws.
  pub challenge_times-IsInside :
      (s : ChallengeSchedule) (actual predicted : List ℤ)
      → (s ≡ public_jitter) ⊎ (s ≡ hidden_jitter)
      → challenge_times s seed config ≡ ok (actual, predicted)
      → pos 2 ≤ℤ config.delivery_seconds
      → All (IsInside config) actual
        × AreRising actual
        × (length actual ≡ pos_part config.challenge_count)
  unfolding challenge_times
  challenge_times-IsInside fixed_periodic actual predicted j h d = absurd (ground (arith, j))
  challenge_times-IsInside hidden_uniform actual predicted j h d = absurd (ground (arith, j))
  challenge_times-IsInside public_jitter actual predicted j h d =
      >>=-eq-ok_then (fixed_times config) _ (actual, predicted) h
        (λ ts e k.
          subst AreGood (ap (λ (p : List ℤ × List ℤ). p.0) (ok-injective _ (actual, predicted) k))
            (jittered_times ts e d))
  challenge_times-IsInside hidden_jitter actual predicted j h d =
      >>=-eq-ok_then (fixed_times config) _ (actual, predicted) h
        (λ ts e k.
          subst AreGood (ap (λ (p : List ℤ × List ℤ). p.0) (ok-injective _ (actual, predicted) k))
            (jittered_times ts e d))
