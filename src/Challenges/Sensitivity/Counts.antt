-- ===== src/Challenges/Sensitivity/Counts.antt =====
-- The counts of the cells of a sensitivity grid.
use north_standard.Base.{
  ℕ, zero, suc, ◌+◌, any, List, [], ◌∷◌, length, is_empty, ◌≡◌, refl, ◌∙◌, ap, sym, arith, All,
  Result, ok, value_error, ◌||◌, raise_if, map_result, >>=-eq-ok_then, ok-injective, Bool-cases,
  inl, inr,
}
use mathlib.Core.Path.{subst}
use north_standard.Base.Int.{ℤ, pos, pos_part, ◌≤ℤ◌, ltb_ℤ}
use north_standard.Value.{Float}
use north_standard.Canonical.{Hashing}
use north_standard.Models.{Decision, accept, reject, inconclusive}
use north_standard.Experiments.{Noise}
use north_standard.Challenges.{ChallengeSchedule, Scheduler, check_config, count_from}
use north_standard.Challenges.Sensitivity.{
  SensitivityCell, Point, count_decision, grid_points, run_cell, run_cells, run_sensitivity_grid,
}

-- The decisions of a list are accepted, rejected or left open.
counts_sum :
    (ds : List Decision)
    → count_decision accept ds + count_decision reject ds + count_decision inconclusive ds
      ≡ length ds
counts_sum [] = omega arith
counts_sum (d ∷ ds) = ground (arith, counts_sum ds)

length-count_from : (k n : ℕ) → length (count_from k n) ≡ n
length-count_from k zero = refl
length-count_from k (suc n) = ap suc (length-count_from (suc k) n)

length-map_result {ℓ κ} :
    {A : Type ℓ} {B : Type κ} (f : A → Result B) (xs : List A) (ys : List B)
    → map_result f xs ≡ ok ys
    → length ys ≡ length xs
length-map_result f [] ys h = ap length (sym (ok-injective _ _ h))
length-map_result f (x ∷ xs) ys h = >>=-eq-ok_then (f x) _ ys h (λ y _ h₁.
    >>=-eq-ok_then (map_result f xs) _ ys h₁
      (λ rest e h₂. ap length (sym (ok-injective _ _ h₂)) ∙ ap suc (length-map_result f xs rest e)))

-- The counts of a cell add up to its trials, and the attacker's window lies in the jitter.
pub record IsCounted (trials_per_cell : ℤ) (cell : SensitivityCell) : Type 0 where
  pub trials_are : cell.trials ≡ trials_per_cell
  pub counted :
      cell.false_accepts + cell.detected_rejects + cell.inconclusive_trials ≡ pos_part cell.trials
  pub hidden : cell.honesty_radius_seconds ≤ℤ cell.jitter_seconds

module _ (F : Type 0) ⦃fl : Float F⦄ ⦃ns : Noise F⦄ ⦃sc : Scheduler F⦄ ⦃hs : Hashing F⦄
    (n base : ℤ) where
  run_cell-IsCounted :
      (k : ℕ) (p : Point) (cell : SensitivityCell)
      → p.radius ≤ℤ p.jitter
      → run_cell F n base k p ≡ ok cell
      → IsCounted n cell
  unfolding run_cell
  run_cell-IsCounted k p cell wide h = >>=-eq-ok_then (check_config _) _ cell h (λ config _ h₁.
      >>=-eq-ok_then (map_result _ (count_from 0 (pos_part n))) _ cell h₁ (λ decisions e h₂.
        subst (IsCounted n) (ok-injective _ _ h₂) (record {
          trials_are = refl;
          counted =
              counts_sum decisions
              ∙ length-map_result _ _ decisions e
              ∙ length-count_from 0 (pos_part n);
          hidden = wide;
        })))

  run_cells-IsCounted :
      (k : ℕ) (ps : List Point) (cells : List SensitivityCell)
      → run_cells F n base k ps ≡ ok cells
      → All (IsCounted n) cells
  unfolding run_cells
  run_cells-IsCounted k [] cells h = subst (All (IsCounted n)) (ok-injective _ _ h) tt
  run_cells-IsCounted k (p ∷ ps) cells h = elim (Bool-cases (ltb_ℤ p.jitter p.radius)) [
    | inl e ↦ run_cells-IsCounted k ps cells (rw (e, run_cells) at h)
    | inr e ↦ >>=-eq-ok_then (run_cell F n base k p) _ cells (rw (e, run_cells) at h) (λ cell e₁ h₁.
        >>=-eq-ok_then (run_cells F n base (suc k) ps) _ cells h₁ (λ rest e₂ h₂.
          subst (All (IsCounted n)) (ok-injective _ _ h₂) (
            run_cell-IsCounted k p cell (ground (arith, e)) e₁,
            run_cells-IsCounted (suc k) ps rest e₂,
          )))
  ]

  -- In every cell of a grid that `run_sensitivity_grid` returns the accepted, the rejected and the
  -- inconclusive trials add up to the trials that were asked for, of which there is at least one; and
  -- the attacker's honest window is no wider than the jitter.
  pub run_sensitivity_grid-IsCounted :
      (counts radii jitters : List ℤ) (schedules : List ChallengeSchedule)
      (cells : List SensitivityCell)
      → run_sensitivity_grid F counts radii jitters n base schedules ≡ ok cells
      → All (IsCounted n) cells × (pos 1 ≤ℤ n)
  unfolding run_sensitivity_grid
  run_sensitivity_grid-IsCounted counts radii jitters schedules cells h =
      >>=-eq-ok_then (raise_if (ltb_ℤ n (pos 1)) (value_error "trials_per_cell must be >= 1")) _
        cells h
        (λ _ some_ h₁.
          >>=-eq-ok_then
            (raise_if (ltb_ℤ base (pos 0)) (value_error "base_seed must be non-negative")) _ cells
            h₁
            (λ _ _ h₂.
              >>=-eq-ok_then
                (raise_if
                  (is_empty counts || is_empty radii || is_empty jitters || is_empty schedules)
                  (value_error "sensitivity axes must not be empty"))
                _ cells h₂
                (λ _ _ h₃.
                  >>=-eq-ok_then
                    (raise_if (any (λ n. ltb_ℤ n (pos 2)) counts)
                      (value_error "challenge counts must be >= 2"))
                    _ cells h₃
                    (λ _ _ h₄.
                      >>=-eq-ok_then
                        (raise_if (any (λ n. ltb_ℤ n (pos 0)) radii)
                          (value_error "honesty radii must be non-negative"))
                        _ cells h₄
                        (λ _ _ h₅.
                          >>=-eq-ok_then
                            (raise_if (any (λ n. ltb_ℤ n (pos 0)) jitters)
                              (value_error "jitter values must be non-negative"))
                            _ cells h₅
                            (λ _ _ h₆. (
                              run_cells-IsCounted 0 (grid_points schedules counts radii jitters)
                                  cells h₆,
                              ground (arith, some_),
                            )))))))
