-- ===== src/Challenges/Evidence.antt =====
-- src/north_standard/challenge_experiment.py: the evidence that the challenges leave.
pub mod Sent
pub mod Breaches
use Prim.Native.String.{◌++◌ as str_append}
use north_standard.Base.{
  ℕ, suc, ◌+◌, String, Bool, true, false, not, ◌||◌, some, none, List, [], ◌∷◌, ◌++◌, filter,
  Result, ok, err, runtime_error, ◌>>=◌, ◌>>◌, raise_if, if◌then◌else◌,
}
use north_standard.Base.Int.{ℤ, pos, ◌+ℤ◌}
use north_standard.Base.Decimal.{decimal}
use north_standard.Value.{Float, boolean, float, str, fields_of}
use north_standard.Models.{
  ComputeContract, EvidenceRecord, EvidenceBundle, challenge, is_type, check_record,
}
use north_standard.Simulator.{healthy_service, simulate_scenario, sort_records}
use north_standard.Experiments.{Noise}
use north_standard.Recorded.{show_ℤ}
use north_standard.Challenges.{
  ChallengeSchedule, ChallengeExperimentConfig, Scheduler, schedule_value, challenge_times,
  is_honest_at, estimated_cheat_fraction,
}

-- What `generate_challenge_aware_bundle` returns.
pub record Generated (F : Type 0) : Type 0 where
  pub contract : ComputeContract F
  pub bundle : EvidenceBundle F
  pub actual_times : List ℤ
  pub predicted_times : List ℤ
  pub breach_count : ℕ
  pub cheat_fraction : F

-- `f"{prefix}{schedule.value}-{seed}-{index}"`
abbrev pub challenge_name : String → ChallengeSchedule → (seed : ℤ) → (index : ℕ) → String
challenge_name prefix schedule seed index = str_append prefix (
    str_append (schedule_value schedule)
      (str_append "-" (str_append (show_ℤ seed) (str_append "-" (decimal index)))))

module _ {F : Type 0} where
  -- the record of one challenge
  unfoldable pub challenge_record :
      ComputeContract F
      → ChallengeSchedule
      → (seed : ℤ) → (index : ℕ) → (challenge_time : ℤ) → (score : F) → Result (EvidenceRecord F)
  challenge_record contract schedule seed index challenge_time score =
      let observed = contract.delivery_start +ℤ challenge_time in
      check_record (record {
        schema_version = "evidence/0.1";
        evidence_id = challenge_name "challenge-aware-" schedule seed index;
        evidence_type = challenge;
        producer_id = "verifier-challenge-runner";
        contract_id = contract.contract_id;
        session_id = contract.session_id;
        observed_at = observed;
        received_at = observed +ℤ pos 1;
        sequence_number = pos (100 + index);
        payload = fields_of (
            ("score", float score)
            ∷ ("timed_out", boolean false)
            ∷ ("schedule_mode", str (schedule_value schedule))
            ∷ []);
        nonce = some (challenge_name "nonce-challenge-aware-" schedule seed index);
        replay_domain = "north-standard/v0.1";
        authentication_valid = true;
        trust_tier = "T1";
      })

  -- The loop over the challenge times: the records, and how many of them the provider cheated on.
  unfoldable pub challenge_records :
      ComputeContract F
      → ChallengeSchedule
      → (seed : ℤ) → ChallengeExperimentConfig F
      → (predicted_times : List ℤ) → (index : ℕ) → (actual_times : List ℤ)
      → Result (List (EvidenceRecord F) × ℕ)
  challenge_records contract schedule seed config predicted_times index [] = ok ([], 0)
  challenge_records contract schedule seed config predicted_times index (t ∷ ts) = do
    let honest = is_honest_at t predicted_times config.honesty_radius_seconds
    r ←
        challenge_record contract schedule seed index t
          (if honest then config.honest_score else config.cheat_score)
    (rs, breaches) ← challenge_records contract schedule seed config predicted_times (suc index) ts
    ok (r ∷ rs, if honest then breaches else suc breaches)

module _ {F : Type 0} ⦃fl : Float F⦄ ⦃ns : Noise F⦄ ⦃sc : Scheduler F⦄ where
  unfoldable pub generate_challenge_aware_bundle :
      ChallengeSchedule → (seed : ℤ) → ChallengeExperimentConfig F → Result (Generated F)
  generate_challenge_aware_bundle schedule seed config = do
    (made_contract, base) ← simulate_scenario healthy_service none
    (actual, predicted) ← challenge_times schedule seed config
    (rs, breaches) ← challenge_records made_contract schedule seed config predicted 0 actual
    let records_ =
        sort_records (filter (λ r. not (is_type r.evidence_type challenge)) base.records ++ rs)
    fraction ← estimated_cheat_fraction predicted config
    raise_if (fl.lt fraction (fl.lit 0 0) || fl.is_zero fraction)
        (runtime_error "challenge-aware adversary must cheat during part of the delivery window")
    ok (record {
      contract = made_contract;
      bundle = record base { records = records_ };
      actual_times = actual;
      predicted_times = predicted;
      breach_count = breaches;
      cheat_fraction = fraction;
    })
