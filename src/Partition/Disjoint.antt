-- ===== src/Partition/Disjoint.antt =====
-- When the seeds of the two splits are disjoint, and those of the scenarios of one split.
use mathlib.Core.Path.{subst}
use north_standard.Base.{
  sym, ◌<◌, ℕ, zero, suc, ◌+◌, ◌*◌, ◌≤◌, Bool, true, false, List, [], ◌∷◌, ◌≡◌, ◌≢◌, ◌↔◌, arith,
  any, All, All-map, All-append, concat_map, ok, any-false→All, All→any-false, filter-empty-eq-any,
  Bool-cases, inl, inr,
}
use north_standard.Base.Int.{ℤ, pos, pos_part, ◌+ℤ◌, ◌≤ℤ◌, ◌<ℤ◌, eq_ℤ, eq_ℤ_iff, +ℤ_parts}
use north_standard.Experiments.{SyntheticCase, synthetic_cases, case_index}
use north_standard.Partition.{
  SeedPartition, seeds_from, seeds_for, all_seeds, base_of, trials_of, assert_disjoint,
}

-- No two members, one of each list, are equal.
abbrev pub AllApart : List ℤ → List ℤ → Type 0
AllApart xs ys = All (λ x. All (λ y. x ≢ y) ys) xs

-- `assert_disjoint` returns exactly when no calibration seed is a held-out seed.
pub assert_disjoint_iff :
    (p : SeedPartition)
    → (assert_disjoint p ≡ ok tt) ↔ AllApart (all_seeds p false) (all_seeds p true)
unfolding assert_disjoint
assert_disjoint_iff p =
    let held = all_seeds p true in
    let cal = all_seeds p false in
    let overlap = filter-empty-eq-any (λ s. any (eq_ℤ s) held) cal in
    (
      λ h.
          All-map (λ s e. All-map (λ t n. differ s t n) held (any-false→All (eq_ℤ s) held e)) cal
            (any-false→All (λ s. any (eq_ℤ s) held) cal (ground (arith, overlap))),
      λ apart.
          let none_ : any (λ s. any (eq_ℤ s) held) cal ≡ false =
            All→any-false (λ s. any (eq_ℤ s) held) cal
              (All-map
                (λ s n. All→any-false (eq_ℤ s) held (All-map (λ t d. equal_not s t d) held n)) cal
                apart) in
          ground (arith, overlap, none_),
    )
  where
    differ : (s t : ℤ) → eq_ℤ s t ≡ false → s ≢ t
    differ s t e k = let same = (eq_ℤ_iff s t).1 k in cc

    equal_not : (s t : ℤ) → s ≢ t → eq_ℤ s t ≡ false
    equal_not s t n = elim (Bool-cases (eq_ℤ s t)) [
      | inl e ↦ absurd (n ((eq_ℤ_iff s t).0 e))
      | inr e ↦ e
    ]

add_le : (base : ℤ) (m n : ℕ) → m ≤ n → (base +ℤ pos m) ≤ℤ (base +ℤ pos n)
add_le base m n h = omega (arith, +ℤ_parts base (pos m), +ℤ_parts base (pos n))

add_lt : (base : ℤ) (m n : ℕ) → m < n → (base +ℤ pos m) <ℤ (base +ℤ pos n)
add_lt base m n h = omega (arith, +ℤ_parts base (pos m), +ℤ_parts base (pos n))

-- The seeds of one scenario stand between its base and its base with the number of trials added.
seeds_from_between :
    (base : ℤ) (first count last : ℕ)
    → first + count ≤ last
    → All
        (λ s. ((base +ℤ pos first) ≤ℤ s) × (s <ℤ (base +ℤ pos last)))
        (seeds_from base first count)
seeds_from_between base first zero last h = tt
seeds_from_between base first (suc count) last h = (
  (add_le base first first (omega arith), add_lt base first last (omega arith)),
  All-map (λ s (l, u). (omega (arith, l, add_le base first (suc first) (omega arith)), u))
      (seeds_from base (suc first) count)
      (seeds_from_between base (suc first) count last (omega arith)),
)

module _ (p : SeedPartition) (heldout : Bool) where
  abbrev trials : ℕ
  trials = pos_part (trials_of p heldout)

  seeds_for_between :
      (c : SyntheticCase) (low high : ℕ)
      → low ≤ case_index c * 1_000_003
      → case_index c * 1_000_003 + trials ≤ high
      → All
          (λ s. ((base_of p heldout +ℤ pos low) ≤ℤ s) × (s <ℤ (base_of p heldout +ℤ pos high)))
          (seeds_for p c heldout)
  unfolding seeds_for
  seeds_for_between c low high l h =
      let base = base_of p heldout in
      let at = case_index c * 1_000_003 in
      All-map
        (λ s (a, b). (
          omega (
            arith,
            a,
            l,
            +ℤ_parts base (pos at),
            +ℤ_parts base (pos low),
            +ℤ_parts (base +ℤ pos at) (pos 0),
          ),
          omega (
            arith,
            b,
            h,
            +ℤ_parts base (pos at),
            +ℤ_parts base (pos high),
            +ℤ_parts (base +ℤ pos at) (pos trials),
          ),
        ))
        (seeds_from (base +ℤ pos at) 0 trials)
        (seeds_from_between (base +ℤ pos at) 0 trials trials (omega arith))

  All-concat_map :
      (P : ℤ → Type 0)
      → ((c : SyntheticCase) → All P (seeds_for p c heldout))
      → (cs : List SyntheticCase) → All P (concat_map (λ c. seeds_for p c heldout) cs)
  All-concat_map P h [] = tt
  All-concat_map P h (c ∷ cs) = All-append P (seeds_for p c heldout) _ (h c) (All-concat_map P h cs)

  all_seeds_between :
      (high : ℕ)
      → 7 * 1_000_003 + trials ≤ high
      → All
          (λ s. ((base_of p heldout +ℤ pos 0) ≤ℤ s) × (s <ℤ (base_of p heldout +ℤ pos high)))
          (all_seeds p heldout)
  all_seeds_between high h =
      All-concat_map _
        (λ c. seeds_for_between c 0 high (omega arith) (omega (arith, index_le c, h)))
        synthetic_cases
    where
      index_le : (c : SyntheticCase) → case_index c ≤ 7
      index_le c = ground arith

-- Where the held-out base seed is at least the calibration base seed with seven strides of 1,000,003
-- and the number of calibration trials added, `assert_disjoint` returns.
pub assert_disjoint_returns :
    (p : SeedPartition)
    → (p.calibration_base_seed +ℤ pos (7 * 1_000_003 + pos_part p.calibration_trials_per_scenario))
      ≤ℤ p.heldout_base_seed
    → assert_disjoint p ≡ ok tt
assert_disjoint_returns p h =
    let top = 7 * 1_000_003 + pos_part p.calibration_trials_per_scenario in
    let late = 7 * 1_000_003 + pos_part p.heldout_trials_per_scenario in
    (assert_disjoint_iff p).1 (
      All-map
        (λ s (_, below).
          All-map (λ t (above, _) same. absurd (before s t below above same)) (all_seeds p true)
            (all_seeds_between p true late (omega arith)))
        (all_seeds p false) (all_seeds_between p false top (omega arith)))
  where
    before :
        (s t : ℤ)
        → s <ℤ (
            p.calibration_base_seed
            +ℤ pos (7 * 1_000_003 + pos_part p.calibration_trials_per_scenario))
        → (p.heldout_base_seed +ℤ pos 0) ≤ℤ t
        → s ≡ t
        → ⊥
    before s t below above same =
        let start = +ℤ_parts p.heldout_base_seed (pos 0) in
        let above' = subst (λ x. (p.heldout_base_seed +ℤ pos 0) ≤ℤ x) (sym same) above in
        omega (arith, start, above', below, h)

-- Where a split has at most 1,000,003 trials of each scenario, no seed of an earlier scenario is a
-- seed of a later one.
pub seeds_for-AllApart :
    (p : SeedPartition) (heldout : Bool) (c d : SyntheticCase)
    → pos_part (trials_of p heldout) ≤ 1_000_003
    → case_index c < case_index d
    → AllApart (seeds_for p c heldout) (seeds_for p d heldout)
seeds_for-AllApart p heldout c d few earlier =
    let base = base_of p heldout in
    let cut = case_index d * 1_000_003 in
    All-map
      (λ s (_, below).
        All-map
          (λ t (above, _) same.
            let above' = subst (λ x. (base +ℤ pos cut) ≤ℤ x) (sym same) above in
            omega (arith, above', below))
          (seeds_for p d heldout)
          (seeds_for_between p heldout d cut (cut + pos_part (trials_of p heldout)) (omega arith)
            (omega arith)))
      (seeds_for p c heldout) (seeds_for_between p heldout c 0 cut (omega arith) (omega arith))
