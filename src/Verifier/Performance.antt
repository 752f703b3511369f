-- ===== src/Verifier/Performance.antt =====
-- src/north_standard/verifier.py, `_performance_claim`.
pub mod Judgement
use mathlib.Core.List.{foldl}
use north_standard.Base.{
  String, Bool, false, not, ◌&&◌, List, [], ◌∷◌, length, filter, is_empty, if◌then◌else◌, Result,
  ok, err, value_error, ◌>>=◌, map_result, filter_result,
}
use north_standard.Base.Int.{ℤ, pos, ltb_ℤ, leb_ℤ}
use north_standard.Value.{
  Float, null, boolean, integer, float, str, Fields, get, fields_of, is_number, truthy, to_float,
}
use north_standard.Models.{
  ComputeContract, EvidenceRecord, EvidenceBundle, ClaimResult, ClaimState, affirming,
  contradicting, unknown, challenge,
}
use north_standard.Policy.{VerifierPolicy}
use north_standard.Verifier.Records.{refs, bound_records}

module _ {F : Type 0} ⦃fl : Float F⦄ where
  -- the builtins `min` and `max` of a list, which raise on an empty one
  abbrev pub min_of : List F → Result F
  min_of [] = err (value_error "min() iterable argument is empty")
  min_of (x ∷ xs) = ok (foldl (λ best y. if fl.lt y best then y else best) x xs)

  abbrev pub max_of : List F → Result F
  max_of [] = err (value_error "max() iterable argument is empty")
  max_of (x ∷ xs) = ok (foldl (λ best y. if fl.lt best y then y else best) x xs)

  abbrev claim : ClaimState → List String → List String → Fields F → ClaimResult F
  claim s codes evidence measured = record {
    claim_id = "service.performance";
    state = s;
    reason_codes = codes;
    evidence_refs = evidence;
    metrics = measured;
  }

  -- `bool(r.payload.get("timed_out", False))`
  abbrev pub timed_out : EvidenceRecord F → Bool
  timed_out r = truthy (get "timed_out" (boolean false) r.payload)

  -- A challenge that ran to its end and reports a number.
  abbrev pub is_scored : EvidenceRecord F → Bool
  is_scored r = not (timed_out r) && is_number (get "score" null r.payload)

  -- `float(r.payload["score"])`
  abbrev pub score_of : EvidenceRecord F → Result F
  score_of r = to_float (get "score" null r.payload)

  -- `float(r.payload["score"]) < contract.performance_min_score`
  abbrev pub is_breach : ComputeContract F → EvidenceRecord F → Result Bool
  is_breach contract r = score_of r >>= λ s. ok (fl.lt s contract.performance_min_score)

  abbrev pub valid_challenges : ComputeContract F → EvidenceBundle F → List (EvidenceRecord F)
  valid_challenges contract bundle = filter is_scored (bound_records contract bundle challenge)

  -- The claim once the scores are known: enough breaches contradict, a few leave it open.
  unfoldable pub judge_performance :
      VerifierPolicy → (valid breaches : List (EvidenceRecord F)) → Fields F → ClaimResult F
  judge_performance policy valid breaches measured =
      if leb_ℤ policy.minimum_breach_challenges (pos (length breaches))
      then claim contradicting ("CHALLENGE_PERFORMANCE_BREACH" ∷ []) (refs breaches) measured
      else if not (is_empty breaches)
      then claim unknown ("CHALLENGE_MIXED_PERFORMANCE" ∷ []) (refs valid) measured
      else claim affirming [] (refs valid) measured

  unfoldable pub performance_metrics :
      ComputeContract F → (valid breaches : ℤ) → List F → Result (Fields F)
  performance_metrics contract valid breaches scores = do
    least ← min_of scores
    greatest ← max_of scores
    ok (
        fields_of (
          ("valid_challenges", integer valid)
          ∷ ("breach_challenges", integer breaches)
          ∷ ("minimum_score", float least)
          ∷ ("maximum_score", float greatest)
          ∷ ("mean_score", float (fl.div_count (fl.sum scores) (length scores)))
          ∷ ("contract_floor", float contract.performance_min_score)
          ∷ (
            "threshold_status",
            str (if contract.research_mode then "EXPERIMENT_DEFINED" else "CONTRACT_DEFINED"),
          )
          ∷ []))

  unfoldable pub performance_claim :
      ComputeContract F → EvidenceBundle F → VerifierPolicy → Result (ClaimResult F)
  performance_claim contract bundle policy =
      let valid = valid_challenges contract bundle in
      let count = pos (length valid) in
      let insufficient = fields_of (
        ("valid_challenges", integer count)
        ∷ ("required", integer policy.minimum_valid_challenges)
        ∷ []) in
      let judged : Result (ClaimResult F) = do
        scores ← map_result score_of valid
        breaches ← filter_result (is_breach contract) valid
        measured ← performance_metrics contract count (pos (length breaches)) scores
        ok (judge_performance policy valid breaches measured)
      in if ltb_ℤ count policy.minimum_valid_challenges
        then ok (claim unknown ("CHALLENGE_INSUFFICIENT_COUNT" ∷ []) (refs valid) insufficient)
        else judged
