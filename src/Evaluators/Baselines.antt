-- ===== src/Evaluators/Baselines.antt =====
-- src/north_standard/evaluators.py: the baselines, each on one class of evidence.
use north_standard.Base.{
  String, not, ◌&&◌, List, [], ◌∷◌, length, filter, any, is_empty, Result, ok, ◌>>=◌, filter_result,
  any_result, str_eq, if◌then◌else◌,
}
use north_standard.Base.Int.{pos, ltb_ℤ, leb_ℤ}
use north_standard.Value.{Float}
use north_standard.Models.{
  ComputeContract, EvidenceRecord, EvidenceBundle, telemetry, challenge, external_probe, is_type,
  Decision, accept, reject, inconclusive,
}
use north_standard.Policy.{VerifierPolicy, default_policy}
use north_standard.Verifier.Availability.{has_text, is_provider_failure, is_ambiguous}
use north_standard.Verifier.Performance.{is_scored, is_breach}

pub record EvaluationOutcome : Type 0 where
  pub decision : Decision
  pub reason_codes : List String

abbrev pub outcome_of : Decision → String → EvaluationOutcome
outcome_of d code = record { decision = d; reason_codes = code ∷ [] }

module _ {F : Type 0} where
  unfoldable pub baseline_self_report : EvidenceBundle F → EvaluationOutcome
  baseline_self_report bundle =
      let reports = filter (λ r. is_type r.evidence_type telemetry) bundle.records in
      if is_empty reports
      then outcome_of inconclusive "SELF_REPORT_MISSING"
      else if any (has_text "service_state" "UNAVAILABLE") reports
      then outcome_of reject "SELF_REPORTED_UNAVAILABLE"
      else if any (has_text "service_state" "HEALTHY") reports
      then outcome_of accept "SELF_REPORTED_HEALTHY"
      else outcome_of inconclusive "SELF_REPORT_UNKNOWN"

  unfoldable pub baseline_external_probe : EvidenceBundle F → Result EvaluationOutcome
  baseline_external_probe bundle =
      let probes = filter (λ r. is_type r.evidence_type external_probe) bundle.records in
      let unblamed : Result EvaluationOutcome = do
        ambiguous ← any_result is_ambiguous probes
        ok (
            if ambiguous
            then outcome_of inconclusive "EXTERNAL_PROBE_AMBIGUOUS"
            else if any (has_text "result" "SUCCESS") probes
            then outcome_of accept "EXTERNAL_PROBE_SUCCESS"
            else outcome_of inconclusive "EXTERNAL_PROBE_UNKNOWN")
      in if is_empty probes
        then ok (outcome_of inconclusive "EXTERNAL_PROBE_MISSING")
        else if any is_provider_failure probes
        then ok (outcome_of reject "EXTERNAL_PROBE_PROVIDER_FAILURE")
        else unblamed

module _ {F : Type 0} ⦃fl : Float F⦄ where
  -- the challenges that the comprehension keeps
  abbrev pub kept_challenges : ComputeContract F → EvidenceBundle F → List (EvidenceRecord F)
  kept_challenges contract bundle =
      filter
        (λ r.
          is_type r.evidence_type challenge
          && r.authentication_valid
          && str_eq r.contract_id contract.contract_id
          && str_eq r.session_id contract.session_id
          && is_scored r)
        bundle.records

  -- the tests on the breaches
  abbrev pub judge_challenges : VerifierPolicy → List (EvidenceRecord F) → EvaluationOutcome
  judge_challenges policy breaches =
      if leb_ℤ policy.minimum_breach_challenges (pos (length breaches))
      then outcome_of reject "CHALLENGE_ONLY_BREACH"
      else if not (is_empty breaches)
      then outcome_of inconclusive "CHALLENGE_ONLY_MIXED"
      else outcome_of accept "CHALLENGE_ONLY_PASS"

  unfoldable pub baseline_challenge_only :
      ComputeContract F → EvidenceBundle F → Result EvaluationOutcome
  baseline_challenge_only contract bundle =
      let policy = default_policy contract.verifier_policy_id in
      let kept = kept_challenges contract bundle in
      let judged : Result EvaluationOutcome = do
        breaches ← filter_result (is_breach contract) kept
        ok (judge_challenges policy breaches)
      in if ltb_ℤ (pos (length kept)) policy.minimum_valid_challenges
        then ok (outcome_of inconclusive "CHALLENGE_ONLY_INSUFFICIENT")
        else judged
