-- ===== src/Experiments/Table.antt =====
-- The trials of a run of all cases.
pub mod Counts
use north_standard.Base.{
  ℕ, zero, suc, ◌+◌, ◌*◌, ◌≤◌, String, Bool, true, false, ◌&&◌, ◌||◌, List, [], ◌∷◌, ◌++◌, none,
  filter, length, length-append, ◌≡◌, refl, sym, ◌∙◌, ap, arith, All, All-append, All-map, ok,
  >>=-eq-ok_then, ok-injective, raise_if, value_error, str_eq, if◌then◌else◌, Bool-cases, inl, inr,
}
use mathlib.Core.Path.{subst}
use north_standard.Base.Int.{ℤ, pos, pos_part, ◌+ℤ◌, ltb_ℤ}
use north_standard.Value.{Float}
use north_standard.Canonical.{Hashing}
use north_standard.Models.{
  Decision, accept, reject, inconclusive, is_decision, semantic_hash, bundle_root,
}
use north_standard.Verifier.{verify}
use north_standard.Experiments.{
  Noise, GroundTruth, compliant, breach, is_truth, SyntheticCase, healthy_variance,
  marginal_healthy, mild_throttle, severe_throttle, replayed_evidence, buyer_network_failure,
  provider_outage, telemetry_gap, synthetic_cases, case_specs, case_value, generate_case_evidence,
}
use north_standard.Experiments.Plain.{ScoresPass, plain_trial_decides}
use north_standard.Experiments.Summary.{Summary, summarize, of_truth, of_decision}
use north_standard.Experiments.Trials.{
  TrialRecord, run_trial, case_trials, matrix_trials, run_matrix,
}

-- the ground truth of a case
abbrev truth_of : SyntheticCase → GroundTruth
truth_of healthy_variance = compliant
truth_of marginal_healthy = compliant
truth_of mild_throttle = breach
truth_of severe_throttle = breach
truth_of replayed_evidence = breach
truth_of buyer_network_failure = compliant
truth_of provider_outage = breach
truth_of telemetry_gap = compliant

-- what is known of the decision on a case
abbrev IsDecided : SyntheticCase → Decision → Type 0
IsDecided replayed_evidence d = d ≡ reject
IsDecided provider_outage d = d ≡ reject
IsDecided buyer_network_failure d = d ≡ inconclusive
IsDecided telemetry_gap d = d ≡ inconclusive
IsDecided _ d = Unit

record IsTrialOf (c : SyntheticCase) (t : TrialRecord) : Type 0 where
  named : t.scenario ≡ case_value c
  labelled : t.ground_truth ≡ truth_of c
  decided : IsDecided c t.decision

module _ (F : Type 0) ⦃fl : Float F⦄ ⦃ns : Noise F⦄ ⦃hs : Hashing F⦄ (pass : ScoresPass F fl) where
  trial-IsDecided :
      (c : SyntheticCase) (seed elapsed : ℤ) (t : TrialRecord)
      → run_trial F c seed elapsed ≡ ok t
      → IsDecided c t.decision
  trial-IsDecided healthy_variance seed elapsed t h = tt
  trial-IsDecided marginal_healthy seed elapsed t h = tt
  trial-IsDecided mild_throttle seed elapsed t h = tt
  trial-IsDecided severe_throttle seed elapsed t h = tt
  trial-IsDecided replayed_evidence seed elapsed t h =
      plain_trial_decides F pass replayed_evidence seed elapsed t refl h
  trial-IsDecided buyer_network_failure seed elapsed t h =
      plain_trial_decides F pass buyer_network_failure seed elapsed t refl h
  trial-IsDecided provider_outage seed elapsed t h =
      plain_trial_decides F pass provider_outage seed elapsed t refl h
  trial-IsDecided telemetry_gap seed elapsed t h =
      plain_trial_decides F pass telemetry_gap seed elapsed t refl h

  spec_truth : (c : SyntheticCase) → (case_specs {F = F} c).ground_truth ≡ truth_of c
  spec_truth healthy_variance = refl
  spec_truth marginal_healthy = refl
  spec_truth mild_throttle = refl
  spec_truth severe_throttle = refl
  spec_truth replayed_evidence = refl
  spec_truth buyer_network_failure = refl
  spec_truth provider_outage = refl
  spec_truth telemetry_gap = refl

  run_trial-labels :
      (c : SyntheticCase) (seed elapsed : ℤ) (t : TrialRecord)
      → run_trial F c seed elapsed ≡ ok t
      → (t.scenario ≡ case_value c) × (t.ground_truth ≡ truth_of c)
  unfolding run_trial
  run_trial-labels c seed elapsed t h =
      >>=-eq-ok_then (generate_case_evidence {F = F} c seed) _ t h (λ (contract, bundle) _ h₁.
        >>=-eq-ok_then (verify contract bundle none) _ t h₁ (λ result _ h₂.
          >>=-eq-ok_then (semantic_hash contract) _ t h₂ (λ hashed _ h₃.
            >>=-eq-ok_then (bundle_root bundle) _ t h₃ (λ root _ h₄.
              let same = ok-injective _ _ h₄ in
              (
                ap (λ (x : TrialRecord). x.scenario) (sym same),
                ap (λ (x : TrialRecord). x.ground_truth) (sym same) ∙ spec_truth c,
              )))))

  run_trial-IsTrialOf :
      (c : SyntheticCase) (seed elapsed : ℤ) (t : TrialRecord)
      → run_trial F c seed elapsed ≡ ok t
      → IsTrialOf c t
  run_trial-IsTrialOf c seed elapsed t h =
      let (name, label) = run_trial-labels c seed elapsed t h in
      record { named = name; labelled = label; decided = trial-IsDecided c seed elapsed t h }

-- The trials of some cases, of each case as many.
data IsTable (m : ℕ) : List SyntheticCase → List TrialRecord → Type 0 where
  no_case : IsTable m [] []
  one_case :
      (c : SyntheticCase) (cs : List SyntheticCase) (block ts : List TrialRecord)
      → All (IsTrialOf c) block
      → length block ≡ m
      → IsTable m cs ts
      → IsTable m (c ∷ cs) (block ++ ts)

module _ (F : Type 0) ⦃fl : Float F⦄ ⦃ns : Noise F⦄ ⦃hs : Hashing F⦄ (pass : ScoresPass F fl)
    (clock : SyntheticCase → ℤ → ℤ) where
  case_trials-All :
      (c : SyntheticCase) (seed_base : ℤ) (first count : ℕ) (ts : List TrialRecord)
      → case_trials F clock c seed_base first count ≡ ok ts
      → All (IsTrialOf c) ts × (length ts ≡ count)
  case_trials-All c seed_base first zero ts h =
      subst (λ rows. All (IsTrialOf c) rows × (length rows ≡ 0)) (ok-injective _ _ h) (tt, refl)
  case_trials-All c seed_base first (suc count) ts h =
      let given_seed = seed_base +ℤ pos first in
      >>=-eq-ok_then (run_trial F c given_seed (clock c given_seed)) _ ts h (λ t e h₁.
        >>=-eq-ok_then (case_trials F clock c seed_base (suc first) count) _ ts h₁ (λ others e₂ h₂.
          let (rest, many) = case_trials-All c seed_base (suc first) count others e₂ in
          subst (λ rows. All (IsTrialOf c) rows × (length rows ≡ suc count)) (ok-injective _ _ h₂)
            ((run_trial-IsTrialOf F pass c given_seed _ t e, rest), ap suc many)))

  matrix_trials-IsTable :
      (n base_seed : ℤ) (k : ℕ) (cs : List SyntheticCase) (ts : List TrialRecord)
      → matrix_trials F clock n base_seed k cs ≡ ok ts
      → IsTable (pos_part n) cs ts
  matrix_trials-IsTable n base_seed k [] ts h =
      subst (IsTable (pos_part n) []) (ok-injective _ _ h) no_case
  matrix_trials-IsTable n base_seed k (c ∷ cs) ts h =
      let first = base_seed +ℤ pos (k * 1_000_003) in
      >>=-eq-ok_then (case_trials F clock c first 0 (pos_part n)) _ ts h (λ block e h₁.
        >>=-eq-ok_then (matrix_trials F clock n base_seed (suc k) cs) _ ts h₁ (λ others e₂ h₂.
          let (all_, many) = case_trials-All c first 0 (pos_part n) block e in
          subst (IsTable (pos_part n) (c ∷ cs)) (ok-injective _ _ h₂) (
            one_case c cs block others all_ many
              (matrix_trials-IsTable n base_seed (suc k) cs others e₂))))

  run_matrix-IsTable :
      (n base_seed : ℤ) (ts : List TrialRecord)
      → run_matrix F clock n base_seed ≡ ok ts
      → IsTable (pos_part n) synthetic_cases ts
  unfolding run_matrix
  run_matrix-IsTable n base_seed ts h =
      >>=-eq-ok_then (raise_if (ltb_ℤ n (pos 1)) (value_error "trials_per_scenario must be >= 1")) _
        ts h
        (λ _ _ h₁.
          >>=-eq-ok_then
            (raise_if (ltb_ℤ base_seed (pos 0)) (value_error "base_seed must be non-negative")) _ ts
            h₁ (λ _ _ h₂. matrix_trials-IsTable n base_seed 0 synthetic_cases ts h₂))

module _ (F : Type 0) ⦃fl : Float F⦄ ⦃ns : Noise F⦄ ⦃hs : Hashing F⦄
    (clock : SyntheticCase → ℤ → ℤ) where
  run_matrix-positive :
      (n : ℕ) (base_seed : ℤ) (ts : List TrialRecord)
      → run_matrix F clock (pos n) base_seed ≡ ok ts
      → 1 ≤ n
  unfolding run_matrix
  run_matrix-positive zero base_seed ts h = cc h
  run_matrix-positive (suc n) base_seed ts h = omega arith
