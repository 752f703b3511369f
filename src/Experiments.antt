-- ===== src/Experiments.antt =====
-- src/north_standard/experiments.py: the seeded synthetic cases.
pub mod Trials
pub mod Summary
pub mod Plain
pub mod Table
use north_standard.Base.{
  ℕ, suc, String, List, [], ◌∷◌, Bool, true, false, not, Option, none, some, filter, Result, ok,
  err, assertion_error, value_error, ◌>>=◌, ◌>>◌, raise_if, map_result, if◌then◌else◌,
}
use north_standard.Base.Int.{ℤ, pos, ltb_ℤ}
use north_standard.Value.{Float, boolean, float, str, Fields, put, fields_of}
use north_standard.Canonical.{Hashing}
use north_standard.Models.{
  ComputeContract, EvidenceRecord, EvidenceBundle, EvidenceType, telemetry, challenge,
  external_probe, is_type, check_record, Decision, semantic_hash, bundle_root,
}
use north_standard.Verifier.{verify}
use north_standard.Simulator.{
  Scenario, healthy_service, ambiguous_network_failure, simulate_scenario,
}

pub data GroundTruth : Type 0 where
  compliant breach : GroundTruth

pub data SyntheticCase : Type 0 where
  healthy_variance marginal_healthy mild_throttle severe_throttle : SyntheticCase
  replayed_evidence buyer_network_failure provider_outage telemetry_gap : SyntheticCase

-- `list(SyntheticCase)`
abbrev pub synthetic_cases : List SyntheticCase
synthetic_cases =
    healthy_variance ∷ marginal_healthy ∷ mild_throttle ∷ severe_throttle ∷ replayed_evidence
    ∷ buyer_network_failure ∷ provider_outage ∷ telemetry_gap ∷ []

-- `list(SyntheticCase).index(case)`
abbrev pub case_index : SyntheticCase → ℕ
case_index healthy_variance = 0
case_index marginal_healthy = 1
case_index mild_throttle = 2
case_index severe_throttle = 3
case_index replayed_evidence = 4
case_index buyer_network_failure = 5
case_index provider_outage = 6
case_index telemetry_gap = 7

abbrev pub is_truth : GroundTruth → GroundTruth → Bool
is_truth compliant compliant = true
is_truth breach breach = true
is_truth compliant breach = false
is_truth breach compliant = false

-- `case.value`
abbrev pub case_value : SyntheticCase → String
case_value healthy_variance = "healthy_variance"
case_value marginal_healthy = "marginal_healthy"
case_value mild_throttle = "mild_throttle"
case_value severe_throttle = "severe_throttle"
case_value replayed_evidence = "replayed_evidence"
case_value buyer_network_failure = "buyer_network_failure"
case_value provider_outage = "provider_outage"
case_value telemetry_gap = "telemetry_gap"

pub record CaseSpec (F : Type 0) : Type 0 where
  pub ground_truth : GroundTruth
  pub attack_family : String
  pub hidden_performance_mean : Option F
  pub measurement_spread : F

-- The float operations of `_performance_bundle`, and `Random(seed).random()`: `draw seed k` is the
-- result of the call after k others.
pub record Noise (F : Type 0) : Type 0 where
  pub add : F → F → F
  pub sub : F → F → F
  pub mul : F → F → F
  pub round_to : F → (digits : ℕ) → F
  pub draw : (seed : ℤ) → ℕ → F

module _ {F : Type 0} ⦃fl : Float F⦄ where
  abbrev performance_spec : GroundTruth → String → (mean spread : ℕ) → CaseSpec F
  performance_spec truth family mean spread = record {
    ground_truth = truth;
    attack_family = family;
    hidden_performance_mean = some (fl.lit mean 2);
    measurement_spread = fl.lit spread 2;
  }

  abbrev plain_spec : GroundTruth → String → CaseSpec F
  plain_spec truth family = record {
    ground_truth = truth;
    attack_family = family;
    hidden_performance_mean = none;
    measurement_spread = fl.lit 0 0;
  }

  -- `CASE_SPECS`
  abbrev pub case_specs : SyntheticCase → CaseSpec F
  case_specs healthy_variance = performance_spec compliant "healthy-control" 96 8
  case_specs marginal_healthy = performance_spec compliant "measurement-noise" 83 7
  case_specs mild_throttle = performance_spec breach "performance-throttle" 76 8
  case_specs severe_throttle = performance_spec breach "performance-throttle" 60 7
  case_specs replayed_evidence = plain_spec breach "binding-replay"
  case_specs buyer_network_failure = plain_spec compliant "buyer-network-fault"
  case_specs provider_outage = plain_spec breach "availability-outage"
  case_specs telemetry_gap = plain_spec compliant "evidence-missingness"

  -- `max(0.0, min(1.20, x))`
  abbrev pub clamp : F → F
  clamp x =
      let capped = if fl.lt x (fl.lit 120 2) then x else fl.lit 120 2 in
      if fl.lt (fl.lit 0 0) capped then capped else fl.lit 0 0

  abbrev with_payload : EvidenceRecord F → Fields F → Result (EvidenceRecord F)
  with_payload r fs = check_record (record r { payload = fs })

  -- the branches of PROVIDER_OUTAGE on the record's type
  unfoldable pub outage_record : EvidenceRecord F → Result (EvidenceRecord F)
  outage_record r = elim r.evidence_type [
    | telemetry ↦ with_payload r (fields_of (("service_state", str "UNAVAILABLE") ∷ []))
    | external_probe ↦
        with_payload r
          (fields_of (("result", str "FAILURE") ∷ ("attribution", str "PROVIDER") ∷ []))
    | challenge ↦
        with_payload r
          (put "timeout_attribution" (str "PROVIDER") (put "timed_out" (boolean true) r.payload))
    | _ ↦ ok r
  ]

module _ {F : Type 0} ⦃fl : Float F⦄ ⦃ns : Noise F⦄ where
  -- the score of a challenge, from the draw of the generator
  abbrev pub noisy_score : (mean spread drawn : F) → F
  noisy_score mean spread drawn =
      let jitter = ns.mul (ns.sub (ns.mul drawn (fl.lit 20 1)) (fl.lit 10 1)) spread in
      ns.round_to (clamp (ns.add mean jitter)) 6

  -- the loop of `_performance_bundle`, after k draws
  unfoldable pub noisy_records :
      (mean spread : F)
      → (seed : ℤ) → ℕ
      → List (EvidenceRecord F)
      → Result (List (EvidenceRecord F))
  noisy_records mean spread seed k [] = ok []
  noisy_records mean spread seed k (r ∷ rs) =
      if not (is_type r.evidence_type challenge)
      then noisy_records mean spread seed k rs >>= (λ others. ok (r ∷ others))
      else (do
        let score = noisy_score mean spread (ns.draw seed k)
        scored ←
            with_payload r (put "timed_out" (boolean false) (put "score" (float score) r.payload))
        others ← noisy_records mean spread seed (suc k) rs
        ok (scored ∷ others))

  -- `_performance_bundle`, for a case that has a mean
  unfoldable pub performance_bundle :
      (mean spread : F) → (seed : ℤ) → Result (ComputeContract F × EvidenceBundle F)
  performance_bundle mean spread seed = do
    (contract, bundle) ← simulate_scenario healthy_service none
    noisy ← noisy_records mean spread seed 0 bundle.records
    ok (contract, record bundle { records = noisy })

  -- the cases without a mean
  unfoldable pub plain_evidence : SyntheticCase → Result (ComputeContract F × EvidenceBundle F)
  plain_evidence replayed_evidence = simulate_scenario Scenario.replayed_evidence none
  plain_evidence buyer_network_failure = simulate_scenario ambiguous_network_failure none
  plain_evidence provider_outage = do
    (contract, bundle) ← simulate_scenario healthy_service none
    down ← map_result outage_record bundle.records
    ok (contract, record bundle { records = down })
  plain_evidence telemetry_gap = do
    (contract, bundle) ← simulate_scenario healthy_service none
    ok (
      contract,
      record bundle {
        records = filter (λ r. not (is_type r.evidence_type telemetry)) bundle.records;
      },
    )
  plain_evidence _ = err assertion_error

  unfoldable pub generate_case_evidence :
      SyntheticCase → (seed : ℤ) → Result (ComputeContract F × EvidenceBundle F)
  generate_case_evidence c seed = do
    raise_if (ltb_ℤ seed (pos 0)) (value_error "seed must be non-negative")
    elim (case_specs c).hidden_performance_mean [
      | some mean ↦ performance_bundle mean (case_specs c).measurement_spread seed
      | none ↦ plain_evidence c
    ]
