-- ===== src/Verifier/Availability/Judgement.antt =====
-- When `_availability_claim` affirms, and when it blames the provider.
use north_standard.Base.{
  Bool, false, true, not, ◌&&◌, ◌||◌, List, ◌≡◌, ◌↔◌, arith, any, All, ok, filter_result-nil→All,
  All→filter_result-nil, filter-empty-eq-any,
}
use north_standard.Value.{Float}
use north_standard.Models.{
  ComputeContract, EvidenceBundle, EvidenceRecord, ClaimResult, affirming, contradicting, telemetry,
  external_probe, challenge,
}
use north_standard.Verifier.Records.{bound_records}
use north_standard.Verifier.Performance.{timed_out}
use north_standard.Verifier.Availability.{
  availability_claim, judge_availability, has_text, is_ambiguous, is_provider_failure,
  is_provider_timeout,
}

module _ {F : Type 0} ⦃fl : Float F⦄ (telemetries probes challenges : List (EvidenceRecord F)) where
  -- A probe failed by the provider's fault, and the provider's own telemetry or a challenge that
  -- timed out by its fault says so too.
  abbrev pub is_blamed : Bool
  is_blamed =
      any is_provider_failure probes
      && (any (has_text "service_state" "UNAVAILABLE") telemetries
          || any is_provider_timeout challenges)

  -- Some telemetry is healthy, and a probe succeeded or a challenge did not time out.
  abbrev pub is_served : Bool
  is_served =
      any (has_text "service_state" "HEALTHY") telemetries
      && (any (has_text "result" "SUCCESS") probes || any (λ r. not (timed_out r)) challenges)

  judge_availability_affirms :
      (claim : ClaimResult F)
      → judge_availability telemetries probes challenges ≡ ok claim
      → (claim.state ≡ affirming)
        ↔ ((is_blamed ≡ false) × All (λ p. is_ambiguous p ≡ ok false) probes × (is_served ≡ true))
  unfolding judge_availability
  judge_availability_affirms claim h =
      let failed = filter-empty-eq-any is_provider_failure probes in
      let down = filter-empty-eq-any (has_text "service_state" "UNAVAILABLE") telemetries in
      let late = filter-empty-eq-any is_provider_timeout challenges in
      let up = filter-empty-eq-any (has_text "service_state" "HEALTHY") telemetries in
      let answered = filter-empty-eq-any (has_text "result" "SUCCESS") probes in
      let met = filter-empty-eq-any (λ r. not (timed_out r)) challenges in
      (
        λ e. (
          ground (arith, failed, down, late),
          filter_result-nil→All is_ambiguous probes (ground (arith, failed, down, late)),
          ground (arith, failed, down, late, up, answered, met),
        ),
        λ (calm, clear, served). ground (
          arith,
          failed,
          down,
          late,
          up,
          answered,
          met,
          All→filter_result-nil is_ambiguous probes clear,
        ),
      )

  judge_availability_contradicts :
      (claim : ClaimResult F)
      → judge_availability telemetries probes challenges ≡ ok claim
      → (claim.state ≡ contradicting) ↔ (is_blamed ≡ true)
  unfolding judge_availability
  judge_availability_contradicts claim h = ground (
    arith,
    filter-empty-eq-any is_provider_failure probes,
    filter-empty-eq-any (has_text "service_state" "UNAVAILABLE") telemetries,
    filter-empty-eq-any is_provider_timeout challenges,
  )

module _ {F : Type 0} ⦃fl : Float F⦄ (contract : ComputeContract F)
    (bundle : EvidenceBundle F) where
  abbrev pub telemetries : List (EvidenceRecord F)
  telemetries = bound_records contract bundle telemetry

  abbrev pub probes : List (EvidenceRecord F)
  probes = bound_records contract bundle external_probe

  abbrev pub challenges : List (EvidenceRecord F)
  challenges = bound_records contract bundle challenge

  -- Where `_availability_claim` returns, it affirms exactly when no failure of the provider is
  -- corroborated, no bound probe is an unattributed failure, some bound telemetry is healthy, and a
  -- bound probe succeeded or a bound challenge did not time out.
  pub availability_claim_affirms :
      (claim : ClaimResult F)
      → availability_claim contract bundle ≡ ok claim
      → (claim.state ≡ affirming) ↔ (
          (is_blamed telemetries probes challenges ≡ false)
          × All (λ p. is_ambiguous p ≡ ok false) probes
          × (is_served telemetries probes challenges ≡ true))
  unfolding availability_claim
  availability_claim_affirms = judge_availability_affirms telemetries probes challenges

  -- Where `_availability_claim` returns, it contradicts exactly when a bound probe failed by the
  -- provider's fault and, besides, bound telemetry says that the service is unavailable or a bound
  -- challenge timed out by the provider's fault.
  pub availability_claim_contradicts :
      (claim : ClaimResult F)
      → availability_claim contract bundle ≡ ok claim
      → (claim.state ≡ contradicting) ↔ (is_blamed telemetries probes challenges ≡ true)
  unfolding availability_claim
  availability_claim_contradicts = judge_availability_contradicts telemetries probes challenges
