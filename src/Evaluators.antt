-- ===== src/Evaluators.antt =====
-- src/north_standard/evaluators.py: the baselines and the ablations that the verifier is compared
-- with.
pub mod Baselines
pub mod Matrix
pub mod Abstention
pub mod Full
pub mod Challenges
pub mod NoBinding
pub mod Telemetry
use north_standard.Base.{
  String, Bool, not, List, [], ◌∷◌, ◌++◌, filter, none, Result, ok, ◌>>=◌, str_eq, if◌then◌else◌,
}
use north_standard.Value.{Float}
use north_standard.Canonical.{Hashing}
use north_standard.Models.{
  ComputeContract, EvidenceRecord, EvidenceBundle, EvidenceType, telemetry, external_probe, is_type,
  Decision, accept, inconclusive, is_decision, check_contract,
}
use north_standard.Verifier.{verify}
use north_standard.Evaluators.Baselines.{
  EvaluationOutcome, baseline_self_report, baseline_challenge_only, baseline_external_probe,
}

pub data Evaluator : Type 0 where
  full b0_self_report b3_challenge_only b5_external_probe_only : Evaluator
  ablation_no_binding ablation_no_telemetry ablation_no_external_probe : Evaluator
  ablation_no_abstention : Evaluator

module _ {F : Type 0} where
  -- `replace(contract, mandatory_claims=…)` without "session.binding", before its `__post_init__`
  abbrev pub drop_binding : ComputeContract F → ComputeContract F
  drop_binding contract = record contract {
    mandatory_claims = filter (λ c. not (str_eq c "session.binding")) contract.mandatory_claims;
  }

  -- `replace(bundle, records=…)` without the records of one type
  abbrev pub drop_records : EvidenceType → EvidenceBundle F → EvidenceBundle F
  drop_records t bundle = record bundle {
    records = filter (λ r. not (is_type r.evidence_type t)) bundle.records;
  }

-- What the last ablation makes of the verifier's outcome.
abbrev pub without_abstention : EvaluationOutcome → EvaluationOutcome
without_abstention o =
    if is_decision o.decision inconclusive
    then record {
      decision = accept;
      reason_codes = o.reason_codes ++ ("ABSTENTION_DISABLED_ACCEPT_DEFAULT" ∷ []);
    }
    else o

module _ {F : Type 0} ⦃fl : Float F⦄ ⦃hs : Hashing F⦄ where
  -- `_full`
  unfoldable pub evaluate_full : ComputeContract F → EvidenceBundle F → Result EvaluationOutcome
  evaluate_full contract bundle = do
    result ← verify contract bundle none
    ok (record { decision = result.decision; reason_codes = result.reason_codes })

  unfoldable pub evaluate :
      Evaluator → ComputeContract F → EvidenceBundle F → Result EvaluationOutcome
  evaluate full contract bundle = evaluate_full contract bundle
  evaluate b0_self_report contract bundle = ok (baseline_self_report bundle)
  evaluate b3_challenge_only contract bundle = baseline_challenge_only contract bundle
  evaluate b5_external_probe_only contract bundle = baseline_external_probe bundle
  evaluate ablation_no_binding contract bundle = do
    ablated ← check_contract (drop_binding contract)
    evaluate_full ablated bundle
  evaluate ablation_no_telemetry contract bundle =
      evaluate_full contract (drop_records telemetry bundle)
  evaluate ablation_no_external_probe contract bundle =
      evaluate_full contract (drop_records external_probe bundle)
  evaluate ablation_no_abstention contract bundle = do
    outcome ← evaluate_full contract bundle
    ok (without_abstention outcome)
