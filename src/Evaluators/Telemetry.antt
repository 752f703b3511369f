-- ===== src/Evaluators/Telemetry.antt =====
-- The ablation without telemetry.
use north_standard.Base.{not, List, [], ◌∷◌, filter, ◌≡◌, ◌≢◌, refl, arith, ok, none, ◌∙◌}
use north_standard.Value.{Float}
use north_standard.Canonical.{Hashing}
use north_standard.Models.{
  ComputeContract, EvidenceRecord, EvidenceBundle, telemetry, is_type, accept, mandatory_v01_claims,
}
use north_standard.Verifier.Acceptance.{verify_accept_iff_supported}
use north_standard.Evaluators.{evaluate, ablation_no_telemetry, drop_records}
use north_standard.Evaluators.Baselines.{EvaluationOutcome}
use north_standard.Evaluators.Full.{evaluate_full-verify}

module _ {F : Type 0} where
  telemetry_dropped :
      (rs : List (EvidenceRecord F))
      → filter
          (λ r. is_type r.evidence_type telemetry)
          (filter (λ r. not (is_type r.evidence_type telemetry)) rs)
        ≡ []
  telemetry_dropped [] = refl
  telemetry_dropped (r ∷ rs) = ground (arith, telemetry_dropped rs)

-- For a contract with the four mandatory claims of v0.1, the ablation without telemetry never
-- accepts.
pub no_telemetry_never_accepts :
    {F : Type 0} ⦃fl : Float F⦄ ⦃hs : Hashing F⦄ (contract : ComputeContract F)
    (bundle : EvidenceBundle F) (o : EvaluationOutcome)
    → contract.mandatory_claims ≡ mandatory_v01_claims
    → evaluate ablation_no_telemetry contract bundle ≡ ok o
    → o.decision ≢ accept
unfolding evaluate
no_telemetry_never_accepts contract bundle o v01 h a =
    let ablated = drop_records telemetry bundle in
    let (r, e, d) = evaluate_full-verify contract ablated o h in
    let s = (verify_accept_iff_supported contract ablated none r e v01 (omega arith)).0 (d ∙ a) in
    let gone = telemetry_dropped bundle.records in
    let served = s.served in ground (arith, gone, served)
