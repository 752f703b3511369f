-- ===== src/Challenges/Evidence/Breaches.antt =====
-- On which challenges the provider is caught cheating.
use mathlib.Core.Path.{subst}
use mathlib.Core.List.{Perm}
use north_standard.Base.{
  true, not, ◌||◌, List, [], ◌∷◌, map, filter, length, ◌≡◌, ◌⊎◌, refl, sym, ◌∙◌, arith, All,
  All-map, ok, none, >>=-eq-ok_then, ok-injective, raise_if, runtime_error,
}
use north_standard.Base.Int.{ℤ, pos, ◌≤ℤ◌, ◌+ℤ◌, +ℤ_parts}
use north_standard.Value.{Value, Float, float}
use north_standard.Models.{ComputeContract}
use north_standard.Simulator.{healthy_service, simulate_scenario}
use north_standard.Experiments.{Noise}
use north_standard.Challenges.{
  ChallengeSchedule, fixed_periodic, public_jitter, hidden_jitter, hidden_uniform,
  ChallengeExperimentConfig, Scheduler, fixed_times, challenge_times, estimated_cheat_fraction,
}
use north_standard.Challenges.Evidence.{
  Generated, challenge_records, generate_challenge_aware_bundle,
}
use north_standard.Challenges.Evidence.Sent.{
  is_near, far, seen, left_at, seen_sorted, challenge_records-seen,
}

-- A time that is predicted lies in its own window.
near_predicted :
    (radius : ℤ) (ts : List ℤ) → pos 0 ≤ℤ radius → All (λ t. is_near ts radius t ≡ true) ts
near_predicted radius [] h = tt
near_predicted radius (t ∷ ts) h = (
  ground (arith, +ℤ_parts t radius, h),
  All-map (λ u found. ground (arith, found)) ts (near_predicted radius ts h),
)

far-nil :
    (predicted : List ℤ) (radius : ℤ) (ts : List ℤ)
    → All (λ t. is_near predicted radius t ≡ true) ts
    → length (filter (λ t. not (is_near predicted radius t)) ts) ≡ 0
far-nil predicted radius [] h = refl
far-nil predicted radius (t ∷ ts) (e, h) = rw e (far-nil predicted radius ts h)

module _ {F : Type 0} (contract : ComputeContract F) (config : ChallengeExperimentConfig F) where
  -- what a provider leaves that always behaves
  abbrev pub honest_at : ℤ → ℤ × Value F
  honest_at t = (contract.delivery_start +ℤ t, float config.honest_score)

  left-honest :
      (predicted ts : List ℤ)
      → All (λ t. is_near predicted config.honesty_radius_seconds t ≡ true) ts
      → map (left_at contract config predicted) ts ≡ map honest_at ts
  left-honest predicted [] h = refl
  left-honest predicted (t ∷ ts) (e, h) = rw (e, left-honest predicted ts h) refl

module _ {F : Type 0} ⦃fl : Float F⦄ ⦃ns : Noise F⦄ ⦃sc : Scheduler F⦄ (seed : ℤ)
    (config : ChallengeExperimentConfig F) where
  all_foreseen :
      (s : ChallengeSchedule) (actual predicted : List ℤ)
      → (s ≡ fixed_periodic) ⊎ (s ≡ public_jitter)
      → challenge_times s seed config ≡ ok (actual, predicted)
      → actual ≡ predicted
  unfolding challenge_times
  all_foreseen fixed_periodic actual predicted j h = ground (arith, h)
  all_foreseen public_jitter actual predicted j h = ground (arith, h)
  all_foreseen hidden_jitter actual predicted j h = absurd (ground (arith, j))
  all_foreseen hidden_uniform actual predicted j h = absurd (ground (arith, j))

  all_hidden :
      (s : ChallengeSchedule) (actual predicted : List ℤ)
      → (s ≡ hidden_jitter) ⊎ (s ≡ hidden_uniform)
      → challenge_times s seed config ≡ ok (actual, predicted)
      → fixed_times config ≡ ok predicted
  unfolding challenge_times
  all_hidden fixed_periodic actual predicted j h = absurd (ground (arith, j))
  all_hidden public_jitter actual predicted j h = absurd (ground (arith, j))
  all_hidden hidden_jitter actual predicted j h = ground (arith, h)
  all_hidden hidden_uniform actual predicted j h = ground (arith, h)

  -- How the evidence was generated.
  record IsGenerated (s : ChallengeSchedule) (g : Generated F) : Type 0 where
    times : challenge_times s seed config ≡ ok (g.actual_times, g.predicted_times)
    sent :
        Perm
          (seen g.bundle.records)
          (map (left_at g.contract config g.predicted_times) g.actual_times)
    counted : g.breach_count ≡ length (far config g.predicted_times g.actual_times)

  generate-IsGenerated :
      (s : ChallengeSchedule) (g : Generated F)
      → generate_challenge_aware_bundle s seed config ≡ ok g
      → IsGenerated s g
  unfolding generate_challenge_aware_bundle
  generate-IsGenerated s g h =
      >>=-eq-ok_then (simulate_scenario healthy_service none) _ g h (λ (contract, base) _ h₁.
        >>=-eq-ok_then (challenge_times s seed config) _ g h₁ (λ (actual, predicted) timed h₂.
          >>=-eq-ok_then (challenge_records contract s seed config predicted 0 actual) _ g h₂
            (λ (rs, n) made h₃.
              >>=-eq-ok_then (estimated_cheat_fraction predicted config) _ g h₃ (λ fraction _ h₄.
                >>=-eq-ok_then
                  (raise_if (fl.lt fraction (fl.lit 0 0) || fl.is_zero fraction) (
                    runtime_error
                      "challenge-aware adversary must cheat during part of the delivery window"))
                  _ g h₄
                  (λ _ _ h₅.
                    let (new, count) =
                      challenge_records-seen contract s seed config predicted 0 actual rs n made in
                    subst (IsGenerated s) (ok-injective _ _ h₅) (record {
                      times = timed;
                      sent = seen_sorted base.records rs _ new;
                      counted = count;
                    }))))))

  -- On a schedule that the provider can predict, the fixed or the publicly jittered one, and with a
  -- radius that is not negative, the bundle that is generated looks honest: up to the order, the times
  -- and scores of its challenges are those that a provider leaves that behaves at all times of the
  -- schedule, and no breach is counted.
  pub predictable_looks_honest :
      (s : ChallengeSchedule) (g : Generated F)
      → (s ≡ fixed_periodic) ⊎ (s ≡ public_jitter)
      → pos 0 ≤ℤ config.honesty_radius_seconds
      → generate_challenge_aware_bundle s seed config ≡ ok g
      → Perm (seen g.bundle.records) (map (honest_at g.contract config) g.actual_times)
        × (g.breach_count ≡ 0)
  predictable_looks_honest s g foreseen radius h =
      let made = generate-IsGenerated s g h in
      let same = all_foreseen s g.actual_times g.predicted_times foreseen made.times in
      let near =
        subst (λ ts. All (λ t. is_near ts config.honesty_radius_seconds t ≡ true) g.actual_times)
          same (near_predicted config.honesty_radius_seconds g.actual_times radius) in
      (
        subst (Perm (seen g.bundle.records))
            (left-honest g.contract config g.predicted_times g.actual_times near) made.sent,
        made.counted ∙ far-nil g.predicted_times config.honesty_radius_seconds g.actual_times near,
      )

  -- Where a bundle is generated on a hidden schedule, the challenge times are those of the schedule and
  -- the predicted times the fixed ones. Up to the order, the times and scores of the challenges of the
  -- bundle are those that a provider leaves that behaves within the radius of the fixed times and
  -- cheats at all others, and the breaches counted are the challenge times that are not within the
  -- radius of a fixed time.
  pub hidden_breaches :
      (s : ChallengeSchedule) (g : Generated F) (fixed : List ℤ)
      → (s ≡ hidden_jitter) ⊎ (s ≡ hidden_uniform)
      → fixed_times config ≡ ok fixed
      → generate_challenge_aware_bundle s seed config ≡ ok g
      → (challenge_times s seed config ≡ ok (g.actual_times, fixed))
        × Perm (seen g.bundle.records) (map (left_at g.contract config fixed) g.actual_times)
        × (g.breach_count ≡ length (far config fixed g.actual_times))
  hidden_breaches s g fixed hidden f h =
      let made = generate-IsGenerated s g h in
      let known =
        ok-injective _ _
          (sym (all_hidden s g.actual_times g.predicted_times hidden made.times) ∙ f) in
      subst
        (λ ts.
          (challenge_times s seed config ≡ ok (g.actual_times, ts))
          × Perm (seen g.bundle.records) (map (left_at g.contract config ts) g.actual_times)
          × (g.breach_count ≡ length (far config ts g.actual_times)))
        known (made.times, made.sent, made.counted)
