-- ===== src/Partition/Heldout/Apart.antt =====
-- No held-out trial uses a seed of a calibration trial.
use north_standard.Base.{
  true, false, List, [], ◌∷◌, ◌++◌, map, ◌≡◌, refl, sym, ◌∙◌, ap, none, ok, map_result, concat_map,
  >>=-eq-ok_then, ok-injective,
}
use north_standard.Base.Int.{ℤ}
use north_standard.Value.{Float}
use north_standard.Canonical.{Hashing}
use north_standard.Models.{semantic_hash, bundle_root}
use north_standard.Verifier.{verify}
use north_standard.Experiments.{SyntheticCase, synthetic_cases, Noise, generate_case_evidence}
use north_standard.Experiments.Trials.{TrialRecord, run_trial}
use north_standard.Partition.{SeedPartition, seeds_for, assert_disjoint, all_seeds}
use north_standard.Partition.Disjoint.{AllApart, assert_disjoint_iff}
use north_standard.Partition.Heldout.{split_trials, partition_trials, run_partition}

abbrev pub trial_seeds : List TrialRecord → List ℤ
trial_seeds = map λ t. t.seed

map-append {ℓ κ} :
    {A : Type ℓ} {B : Type κ} (f : A → B) (xs ys : List A) → map f (xs ++ ys) ≡ map f xs ++ map f ys
map-append f [] ys = refl
map-append f (x ∷ xs) ys = ap (λ zs. f x ∷ zs) (map-append f xs ys)

module _ (F : Type 0) ⦃fl : Float F⦄ ⦃ns : Noise F⦄ ⦃hs : Hashing F⦄
    (clock : SyntheticCase → ℤ → ℤ) where
  run_trial-seed :
      (c : SyntheticCase) (s e : ℤ) (t : TrialRecord) → run_trial F c s e ≡ ok t → t.seed ≡ s
  unfolding run_trial
  run_trial-seed c s e t h =
      >>=-eq-ok_then (generate_case_evidence {F = F} c s) _ t h (λ (contract, bundle) _ h₁.
        >>=-eq-ok_then (verify contract bundle none) _ t h₁ (λ result _ h₂.
          >>=-eq-ok_then (semantic_hash contract) _ t h₂ (λ _ _ h₃.
            >>=-eq-ok_then (bundle_root bundle) _ t h₃
              (λ _ _ h₄. ap (λ (x : TrialRecord). x.seed) (sym (ok-injective _ _ h₄))))))

  trials-seeds :
      (c : SyntheticCase) (seeds : List ℤ) (ts : List TrialRecord)
      → map_result (λ s. run_trial F c s (clock c s)) seeds ≡ ok ts
      → trial_seeds ts ≡ seeds
  trials-seeds c [] ts h = ap trial_seeds (sym (ok-injective _ _ h))
  trials-seeds c (s ∷ ss) ts h = >>=-eq-ok_then (run_trial F c s (clock c s)) _ ts h (λ t e h₁.
      >>=-eq-ok_then (map_result (λ s. run_trial F c s (clock c s)) ss) _ ts h₁ (λ rest e₁ h₂.
        ap trial_seeds (sym (ok-injective _ _ h₂))
        ∙ ap (λ x. x ∷ trial_seeds rest) (run_trial-seed c s (clock c s) t e)
        ∙ ap (λ xs. s ∷ xs) (trials-seeds c ss rest e₁)))

  -- the seeds of the trials of some cases
  partition_trials-seeds :
      (p : SeedPartition) (cs : List SyntheticCase) (calibration heldout : List TrialRecord)
      → partition_trials F clock p cs ≡ ok (calibration, heldout)
      → (trial_seeds calibration ≡ concat_map (λ c. seeds_for p c false) cs)
        × (trial_seeds heldout ≡ concat_map (λ c. seeds_for p c true) cs)
  partition_trials-seeds p [] cal held h =
      let both = ok-injective _ _ (sym h) in
      (
        ap (λ (x : List TrialRecord × List TrialRecord). trial_seeds x.0) both,
        ap (λ (x : List TrialRecord × List TrialRecord). trial_seeds x.1) both,
      )
  partition_trials-seeds p (c ∷ cs) cal held h =
      >>=-eq-ok_then (split_trials F clock p false c) _ (cal, held) h
        (λ cs₁ e₁ h₁.
          >>=-eq-ok_then (split_trials F clock p true c) _ (cal, held) h₁
            (λ bs e₂ h₂.
              >>=-eq-ok_then (partition_trials F clock p cs) _ (cal, held) h₂
                (λ (cals, helds) e₃ h₃.
                  let (i, j) = partition_trials-seeds p cs cals helds e₃ in
                  let both = ok-injective _ _ (sym h₃) in
                  (
                    ap (λ (x : List TrialRecord × List TrialRecord). trial_seeds x.0) both
                        ∙ map-append _ cs₁ cals
                        ∙ ap (λ xs. xs ++ trial_seeds cals)
                            (trials-seeds c (seeds_for p c false) cs₁ e₁)
                        ∙ ap (λ xs. seeds_for p c false ++ xs) i,
                    ap (λ (x : List TrialRecord × List TrialRecord). trial_seeds x.1) both
                        ∙ map-append _ bs helds
                        ∙ ap (λ xs. xs ++ trial_seeds helds)
                            (trials-seeds c (seeds_for p c true) bs e₂)
                        ∙ ap (λ xs. seeds_for p c true ++ xs) j,
                  ))))

  -- The trials that `run_partition` returns were run at the seeds of their splits, in the order of the
  -- scenarios, and no held-out trial shares its seed with a calibration trial.
  pub run_partition-seeds :
      (p : SeedPartition) (calibration heldout : List TrialRecord)
      → run_partition F clock p ≡ ok (calibration, heldout)
      → (trial_seeds calibration ≡ all_seeds p false)
        × (trial_seeds heldout ≡ all_seeds p true)
        × AllApart (trial_seeds calibration) (trial_seeds heldout)
  unfolding run_partition
  run_partition-seeds p cal held h =
      >>=-eq-ok_then (assert_disjoint p) _ (cal, held) h
        (λ _ clear h₁.
          let (i, j) = partition_trials-seeds p synthetic_cases cal held h₁ in
          let apart = (assert_disjoint_iff p).0 clear in (i, j, rw (i, j) apart))
