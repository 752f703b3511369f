-- ===== src/Campaign/Blind.antt =====
-- The labels of a recorded trial are no input of its verdict.
use north_standard.Base.{
  String, List, ◌≡◌, sym, ◌∙◌, ap, none, some, Result, ok, err, type_error, value_error, ◌>>=◌,
  ◌>>◌, >>=-eq-ok_then, ok-injective, map_result,
}
use north_standard.Base.Int.{ℤ}
use north_standard.Value.{Float, Value, Fields, item, as_text, as_dict}
use north_standard.Canonical.{Hashing}
use north_standard.Models.{Decision, semantic_hash, bundle_root}
use north_standard.Policy.{default_policy, check_policy}
use north_standard.Verifier.{verify}
use north_standard.Experiments.{Noise}
use north_standard.Recorded.{Measure}
use north_standard.Recorded.Calibration.{text_at, list_at}
use north_standard.Recorded.Contract.{build_recorded_contract}
use north_standard.Recorded.Bundle.{build_recorded_bundle}
use north_standard.Recorded.Protocol.{Whole, validate_challenge_binding}
use north_standard.Campaign.{Files, load_traces, truth_of}
use north_standard.Campaign.Trial.{
  Measurements, RecordedTrialResult, float_at, campaign_parties, trial_measurements,
  run_recorded_trial,
}

-- What a trial's result says besides its labels and its running time.
pub record Judgement (F : Type 0) : Type 0 where
  pub capture_ids : List String
  pub contract_hash : String
  pub evidence_bundle_root : String
  pub verifier_policy_id : String
  pub decision : Decision
  pub reason_codes : List String
  pub measurements : Measurements F

abbrev pub judgement : {F : Type 0} → RecordedTrialResult F → Judgement F
judgement r = record {
  capture_ids = r.capture_ids;
  contract_hash = r.contract_hash;
  evidence_bundle_root = r.evidence_bundle_root;
  verifier_policy_id = r.verifier_policy_id;
  decision = r.decision;
  reason_codes = r.reason_codes;
  measurements = r.measurements;
}

module _ {F : Type 0} ⦃fl : Float F⦄ ⦃ms : Measure F⦄ ⦃ns : Noise F⦄ ⦃ws : Whole F⦄ ⦃hs : Hashing F⦄
    ⦃fs : Files F⦄ (manifest calibration : Fields F) (root : String) where
  abbrev path_of : Value F → Result String
  path_of p = elim (as_text p) [ none ↦ err type_error | some s ↦ ok (fs.resolve root s) ]

  -- the trial without its labels, from the paths of its traces alone
  abbrev judge_blindly : List (Value F) → Result (Judgement F)
  judge_blindly values = do
    paths ← map_result path_of values
    traces ← load_traces paths
    validate_challenge_binding calibration traces
    floor ← float_at "performance_floor" manifest
    contract ← build_recorded_contract traces (campaign_parties floor)
    bundle ← build_recorded_bundle contract traces calibration "north-standard-recorded-harness"
    measured ← trial_measurements traces bundle
    policy ← check_policy (default_policy contract.verifier_policy_id)
    result ← verify contract bundle (some policy)
    captures ← map_result (text_at "capture_id") traces
    hashed ← semantic_hash contract
    bundle_hash ← bundle_root bundle
    ok (record {
      capture_ids = captures;
      contract_hash = hashed;
      evidence_bundle_root = bundle_hash;
      verifier_policy_id = policy.policy_id;
      decision = result.decision;
      reason_codes = result.reason_codes;
      measurements = measured;
    })

  run_recorded_trial-blind :
      (elapsed : ℤ) (v : Value F) (r : RecordedTrialResult F)
      → run_recorded_trial manifest calibration root elapsed v ≡ ok r
      → (as_dict v >>= list_at "trace_paths" >>= judge_blindly) ≡ ok (judgement r)
  unfolding run_recorded_trial
  run_recorded_trial-blind elapsed v r h = >>=-eq-ok_then (as_dict v) _ r h (λ trial e₁ h₁.
      >>=-eq-ok_then (list_at "trace_paths" trial) _ r h₁ (λ values e₂ h₂.
        >>=-eq-ok_then (map_result path_of values) _ r h₂ (λ paths e₃ h₃.
          >>=-eq-ok_then (load_traces paths) _ r h₃ (λ traces e₄ h₄.
            >>=-eq-ok_then (validate_challenge_binding calibration traces) _ r h₄ (λ u e₅ h₅.
              >>=-eq-ok_then (float_at "performance_floor" manifest) _ r h₅ (λ floor e₆ h₆.
                >>=-eq-ok_then (build_recorded_contract traces (campaign_parties floor)) _ r h₆
                  (λ contract e₇ h₇.
                    >>=-eq-ok_then
                      (build_recorded_bundle contract traces calibration
                        "north-standard-recorded-harness")
                      _ r h₇
                      (λ bundle e₈ h₈.
                        >>=-eq-ok_then (trial_measurements traces bundle) _ r h₈ (λ measured e₉ h₉.
                          >>=-eq-ok_then (check_policy (default_policy contract.verifier_policy_id))
                            _ r h₉
                            (λ policy f₁ g₁.
                              >>=-eq-ok_then (verify contract bundle (some policy)) _ r g₁
                                (λ result f₂ g₂.
                                  >>=-eq-ok_then (text_at "campaign_id" manifest) _ r g₂ (λ _ _ g₃.
                                    >>=-eq-ok_then (text_at "trial_id" trial) _ r g₃ (λ _ _ g₄.
                                      >>=-eq-ok_then (text_at "condition" trial) _ r g₄ (λ _ _ g₅.
                                        >>=-eq-ok_then (item "ground_truth" trial) _ r g₅
                                          (λ truth _ g₆.
                                            >>=-eq-ok_then
                                              (elim (truth_of truth) [
                                                | none ↦ err (value_error "not a valid GroundTruth")
                                                | some g ↦ ok g
                                              ])
                                              _ r g₆
                                              (λ _ _ g₇.
                                                >>=-eq-ok_then
                                                  (map_result (text_at "capture_id") traces) _ r g₇
                                                  (λ captures f₃ g₈.
                                                    >>=-eq-ok_then (semantic_hash contract) _ r g₈
                                                      (λ hashed f₄ g₉.
                                                        >>=-eq-ok_then (bundle_root bundle) _ r g₉
                                                          (λ bundle_hash f₅ done.
                                                            rw
                                                            (
                                                            e₁, e₂, e₃, e₄, e₅, e₆, e₇, e₈, e₉, f₁,
                                                            f₂, f₃, f₄, f₅,
                                                            )
                                                            (ap (λ x. ok (judgement x))
                                                            (ok-injective _ _
                                                            done)))))))))))))))))))))

  -- Two trials of a campaign with the same trace paths get the same verdict with the same reasons, the
  -- same hashes and the same measurements, whatever their identifiers, their conditions and their
  -- ground truths are and however long the verifier ran.
  pub labels_never_decide :
      (elapsed elapsed' : ℤ) (v w : Value F) (r s : RecordedTrialResult F)
      → (as_dict v >>= list_at "trace_paths") ≡ (as_dict w >>= list_at "trace_paths")
      → run_recorded_trial manifest calibration root elapsed v ≡ ok r
      → run_recorded_trial manifest calibration root elapsed' w ≡ ok s
      → judgement r ≡ judgement s
  labels_never_decide elapsed elapsed' v w r s same h g = ok-injective _ _ (
      sym (run_recorded_trial-blind elapsed v r h)
      ∙ ap (λ m. m >>= judge_blindly) same
      ∙ run_recorded_trial-blind elapsed' w s g)
