-- ===== src/Verifier/Availability.antt =====
-- src/north_standard/verifier.py, `_availability_claim`.
pub mod Judgement
use north_standard.Base.{
  String, Bool, true, false, not, ◌&&◌, ◌||◌, List, [], ◌∷◌, ◌++◌, filter, is_empty, if◌then◌else◌,
  Result, ok, err, type_error, ◌>>=◌, filter_result,
}
use north_standard.Value.{Float, Value, null, end, get, is_text, is_hashable}
use north_standard.Models.{
  ComputeContract, EvidenceRecord, EvidenceBundle, ClaimResult, ClaimState, affirming,
  contradicting, unknown, telemetry, external_probe, challenge,
}
use north_standard.Verifier.Records.{refs, bound_records}
use north_standard.Verifier.Performance.{timed_out}

module _ {F : Type 0} where
  -- `r.payload.get(key) == text`
  abbrev pub has_text : String → String → EvidenceRecord F → Bool
  has_text key text r = is_text text (get key null r.payload)

  -- `v in {None, "UNKNOWN", "NETWORK"}`
  abbrev pub in_ambiguous_set : Value F → Result Bool
  in_ambiguous_set null = ok true
  in_ambiguous_set v =
      if is_hashable v then ok (is_text "UNKNOWN" v || is_text "NETWORK" v) else err type_error

  -- A failed probe that nobody, or only the network, is blamed for.
  abbrev pub is_ambiguous : EvidenceRecord F → Result Bool
  is_ambiguous r =
      if has_text "result" "FAILURE" r
      then in_ambiguous_set (get "attribution" null r.payload)
      else ok false

  -- A failed probe that the provider is blamed for.
  abbrev pub is_provider_failure : EvidenceRecord F → Bool
  is_provider_failure r = has_text "result" "FAILURE" r && has_text "attribution" "PROVIDER" r

  abbrev claim : ClaimState → List String → List String → ClaimResult F
  claim s codes evidence = record {
    claim_id = "service.availability";
    state = s;
    reason_codes = codes;
    evidence_refs = evidence;
    metrics = end;
  }

module _ {F : Type 0} ⦃fl : Float F⦄ where
  -- A challenge that timed out by the provider's fault.
  abbrev pub is_provider_timeout : EvidenceRecord F → Bool
  is_provider_timeout r = timed_out r && has_text "timeout_attribution" "PROVIDER" r

  -- The claim over the bound telemetry, probes and challenges.
  unfoldable pub judge_availability :
      (telemetries probes challenges : List (EvidenceRecord F)) → Result (ClaimResult F)
  judge_availability telemetries probes challenges =
      let failed_probes = filter is_provider_failure probes in
      let failed_telemetry = filter (has_text "service_state" "UNAVAILABLE") telemetries in
      let timeouts = filter is_provider_timeout challenges in
      let healthy = filter (has_text "service_state" "HEALTHY") telemetries in
      let good_probes = filter (has_text "result" "SUCCESS") probes in
      let good_challenges = filter (λ r. not (timed_out r)) challenges in
      let settled : List (EvidenceRecord F) → Result (ClaimResult F) = λ ambiguous.
        if not (is_empty ambiguous)
        then ok (
            claim unknown ("AVAILABILITY_EVIDENCE_CONFLICT" ∷ [])
              (refs (ambiguous ++ telemetries ++ challenges)))
        else if not (is_empty healthy)
            && (not (is_empty good_probes) || not (is_empty good_challenges))
        then ok (claim affirming [] (refs (healthy ++ good_probes ++ good_challenges)))
        else ok (
            claim unknown ("AVAILABILITY_EVIDENCE_INSUFFICIENT" ∷ [])
              (refs (telemetries ++ probes ++ challenges))) in
      let unattributed : Result (ClaimResult F) = filter_result is_ambiguous probes >>= settled in
      if not (is_empty failed_probes)
        && (not (is_empty failed_telemetry) || not (is_empty timeouts))
      then ok (
          claim contradicting ("AVAILABILITY_PROVIDER_FAILURE" ∷ [])
            (refs (failed_probes ++ failed_telemetry ++ timeouts)))
      else unattributed

  unfoldable pub availability_claim : ComputeContract F → EvidenceBundle F → Result (ClaimResult F)
  unfolding judge_availability
  availability_claim contract bundle =
      judge_availability (bound_records contract bundle telemetry)
        (bound_records contract bundle external_probe) (bound_records contract bundle challenge)
