-- ===== src/Recorded/Bundle/Verdict.antt =====
-- The verdict on the bundle that `build_recorded_bundle` makes.
use mathlib.Core.Path.{subst}
use north_standard.Base.{
  ℕ, suc, String, Bool, true, false, not, List, [], ◌∷◌, ◌++◌, ◌≡◌, ◌<◌, ◌≤◌, ◌↔◌, ◌⊎◌, inl, inr,
  refl, sym, ◌∙◌, ap, arith, All, any, All-map, length, map, filter, none, ok, contains, str_eq_iff,
  str_eq_refl,
}
use north_standard.Base.Int.{ℤ, pos, ◌≤ℤ◌}
use north_standard.Value.{Float, Value, Fields}
use north_standard.Canonical.{Hashing}
use north_standard.Models.{
  ComputeContract, EvidenceRecord, EvidenceBundle, EvidenceType, VerifierResult, challenge,
  mandatory_v01_claims, accept, reject, is_type, session_binding, runtime_check, telemetry,
  external_probe,
}
use north_standard.Verifier.{verify}
use north_standard.Policy.{default_policy}
use north_standard.Verifier.Records.{records_of, bound_records, is_bound}
use north_standard.Verifier.Binding.Nonces.{IsNodup}
use north_standard.Verifier.Integrity.Distinct.{Differ, AllDiffer}
use north_standard.Verifier.Performance.{valid_challenges, is_scored, is_breach, timed_out}
use north_standard.Verifier.Performance.Judgement.{breach_count}
use north_standard.Verifier.Counting.{IsMeasured, measured_verdict}
use north_standard.Recorded.{Measure}
use north_standard.Recorded.Bundle.{
  Entry, plain_record, fixed_entries, common_provenance, build_recorded_bundle,
}
use north_standard.Recorded.Bundle.Shape.{IsSampleEntry, numbered, build_recorded_bundle-IsRecorded}

filter_all {ℓ} :
    {A : Type ℓ} (p : A → Bool) (xs : List A) → All (λ x. p x ≡ true) xs → filter p xs ≡ xs
filter_all p [] h = refl
filter_all p (x ∷ xs) (e, h) = rw e (ap (λ ys. x ∷ ys) (filter_all p xs h))

filter_none {ℓ} :
    {A : Type ℓ} (p : A → Bool) (xs : List A) → All (λ x. p x ≡ false) xs → filter p xs ≡ []
filter_none p [] h = refl
filter_none p (x ∷ xs) (e, h) = rw e (filter_none p xs h)

any_of_all {ℓ} :
    {A : Type ℓ} (p : A → Bool) (xs : List A)
    → All (λ x. p x ≡ true) xs
    → 1 ≤ length xs
    → any p xs ≡ true
any_of_all p [] h n = absurd (omega (arith, n))
any_of_all p (x ∷ xs) (e, h) n = rw e refl

-- the evidence identifiers of a list of records
abbrev pub evidence_ids : {F : Type 0} → List (EvidenceRecord F) → List String
evidence_ids = map λ r. r.evidence_id

module _ {F : Type 0} (contract : ComputeContract F) (producer : String) (common : Fields F) where
  -- What holds of the record of every entry holds of all records.
  All-numbered {κ ι} :
      (Q : Entry F → Type κ) (P : EvidenceRecord F → Type ι)
      (f : (n : ℕ) (e : Entry F) → Q e → P (plain_record contract producer common n e)) (n : ℕ)
      (es : List (Entry F))
      → All Q es
      → All P (numbered contract producer common n es)
  All-numbered Q P f n [] h = tt
  All-numbered Q P f n (e ∷ es) (q, qs) = (f n e q, All-numbered Q P f (suc n) es qs)

  length-numbered :
      (n : ℕ) (es : List (Entry F)) → length (numbered contract producer common n es) ≡ length es
  length-numbered n [] = refl
  length-numbered n (e ∷ es) = ap suc (length-numbered (suc n) es)

  -- Records that rising sequence numbers keep apart differ as their identifiers do.
  later_apart :
      (m n : ℕ) (e : Entry F) (es : List (Entry F))
      → m < n
      → All
          (Differ (plain_record contract producer common m e))
          (numbered contract producer common n es)
        ↔ (contains e.evidence_id (evidence_ids (numbered contract producer common n es)) ≡ false)
  later_apart m n e [] h = (λ _. refl, λ _. tt)
  later_apart m n e (x ∷ xs) h =
      let (to, from) = later_apart m (suc n) e xs (omega (arith, h)) in
      ground (arith, to, from, str_eq_iff e.evidence_id x.evidence_id, h)

  AllDiffer-numbered :
      (n : ℕ) (es : List (Entry F))
      → AllDiffer (numbered contract producer common n es)
        ↔ IsNodup (evidence_ids (numbered contract producer common n es))
  AllDiffer-numbered n [] = (λ _. tt, λ _. tt)
  AllDiffer-numbered n (e ∷ es) =
      let (to, from) = later_apart n (suc n) e es (omega arith) in
      let (to_rest, from_rest) = AllDiffer-numbered (suc n) es in
      (λ (d, ds). (to d, to_rest ds), λ (c, cs). (from c, from_rest cs))

module _ {F : Type 0} ⦃fl : Float F⦄ (contract : ComputeContract F) (producer : String)
    (fingerprint calibration_id : Value F) (entries : List (Entry F))
    (samples : All IsSampleEntry entries) where
  abbrev common : Fields F
  common = common_provenance fingerprint calibration_id

  -- the records of the samples
  abbrev of_samples : List (EvidenceRecord F)
  of_samples = numbered contract producer common 4 entries

  of_type :
      (t : EvidenceType) → All (λ r. is_type r.evidence_type t ≡ is_type challenge t) of_samples
  of_type t =
      All-numbered contract producer common IsSampleEntry _
        (λ n e s. ap (λ u. is_type u t) s.is_challenge) 4 entries samples

  bound : All (λ r. is_bound contract r ≡ true) of_samples
  bound =
      All-numbered contract producer common IsSampleEntry _
        (λ n e s. ground (arith, str_eq_refl contract.contract_id, str_eq_refl contract.session_id))
        4 entries samples

  scored : All (λ r. is_scored r ≡ true) of_samples
  scored =
      All-numbered contract producer common IsSampleEntry _ (λ n e s. rw s.payload_is refl) 4
        entries samples

  on_time : All (λ r. not (timed_out r) ≡ true) of_samples
  on_time =
      All-numbered contract producer common IsSampleEntry _ (λ n e s. rw s.payload_is refl) 4
        entries samples

  module _ (observed : ℤ) (device : Fields F) where
    abbrev bundle : EvidenceBundle F
    bundle = record {
      contract_id = contract.contract_id;
      session_id = contract.session_id;
      records =
          numbered contract producer common 1 (fixed_entries contract observed device ++ entries);
      schema_version = "evidence-bundle/0.1";
    }

    typed : records_of bundle challenge ≡ of_samples
    typed = filter_all (λ r. is_type r.evidence_type challenge) of_samples (of_type challenge)

    challenges : bound_records contract bundle challenge ≡ of_samples
    challenges = rw typed (filter_all (is_bound contract) of_samples bound)

    valid : valid_challenges contract bundle ≡ of_samples
    valid = rw challenges (filter_all is_scored of_samples scored)

    others :
        (t : EvidenceType)
        → is_type challenge t ≡ false
        → filter (λ r. is_type r.evidence_type t) of_samples ≡ []
    others t h = filter_none _ of_samples (All-map (λ r e. e ∙ h) of_samples (of_type t))

    IsMeasured-bundle :
        2 ≤ length entries → IsMeasured contract bundle (default_policy contract.verifier_policy_id)
    IsMeasured-bundle enough =
        let own = str_eq_refl contract.contract_id in
        let session = str_eq_refl contract.session_id in
        let others_binding = others session_binding refl in
        let others_runtime = others runtime_check refl in
        let others_telemetry = others telemetry refl in
        let others_probe = others external_probe refl in
        record {
          binding = record {
            present = refl;
            contract_matches = refl;
            session_matches = refl;
            contracts = rw others_binding (refl, tt);
            sessions = rw others_binding (refl, tt);
            authentic = rw others_binding (refl, tt);
            fresh = λ _. rw others_binding (refl, tt);
          };
          has_runtime = rw (own, session) refl;
          compatible =
              rw (own, session, others_runtime)
                ((refl, str_eq_refl contract.runtime_profile_id), tt);
          not_blamed = rw others_probe refl;
          attributed = rw others_probe tt;
          served =
              rw (own, session, others_probe, challenges)
                (any_of_all _ of_samples on_time
                  (omega (arith, enough, length-numbered contract producer common 4 entries)));
          challenged =
              rw valid (omega (arith, enough, length-numbered contract producer common 4 entries));
        }

-- The verdict on a bundle that `build_recorded_bundle` made, by the contract's default policy, for the
-- four mandatory claims of v0.1: where `verify` returns, it accepts exactly when no two records have
-- the same evidence identifier and no sample scores below the floor of the contract; and it rejects
-- exactly when two records have the same identifier or at least two samples score below the floor.
pub recorded_verdict :
    {F : Type 0} ⦃fl : Float F⦄ ⦃ms : Measure F⦄ ⦃hs : Hashing F⦄ (contract : ComputeContract F)
    (traces : List (Fields F)) (calibration : Fields F) (producer : String)
    (bundle : EvidenceBundle F) (result : VerifierResult F)
    → build_recorded_bundle contract traces calibration producer ≡ ok bundle
    → verify contract bundle none ≡ ok result
    → contract.mandatory_claims ≡ mandatory_v01_claims
    → ((result.decision ≡ accept) ↔ (
        IsNodup (evidence_ids bundle.records)
        × All (λ r. is_breach contract r ≡ ok false) (records_of bundle challenge)))
      × ((result.decision ≡ reject) ↔ (
          ¬ IsNodup (evidence_ids bundle.records)
          ⊎ (2 ≤ breach_count contract (records_of bundle challenge))))
recorded_verdict {F = F} contract traces calibration producer made result built verified v01 =
    let r = build_recorded_bundle-IsRecorded contract traces calibration producer made built in
    let Holds = λ (b : EvidenceBundle F).
      IsMeasured contract b (default_policy contract.verifier_policy_id)
      × (AllDiffer b.records ↔ IsNodup (evidence_ids b.records))
      × (valid_challenges contract b ≡ records_of b challenge) in
    let (measured, (to, from), counted) = subst Holds (sym r.is_bundle) (
      IsMeasured-bundle contract producer r.fingerprint r.calibration_id r.entries r.samples
          r.observed r.device r.enough,
      AllDiffer-numbered contract producer (common_provenance r.fingerprint r.calibration_id) 1
          (fixed_entries contract r.observed r.device ++ r.entries),
      valid contract producer r.fingerprint r.calibration_id r.entries r.samples r.observed r.device
          ∙ sym (
              typed contract producer r.fingerprint r.calibration_id r.entries r.samples r.observed
                r.device),
    ) in
    let Decides = λ (rs : List (EvidenceRecord F)).
      ((result.decision ≡ accept)
        ↔ (AllDiffer made.records × All (λ r. is_breach contract r ≡ ok false) rs))
      × ((result.decision ≡ reject)
          ↔ (¬ AllDiffer made.records ⊎ (pos 2 ≤ℤ pos (breach_count contract rs)))) in
    let ((accepts, accepted), (rejects, rejected)) =
      subst Decides counted
        (measured_verdict contract made none result verified v01 (omega arith) measured) in
    (
      (λ e. (to (accepts e).0, (accepts e).1), λ (n, clean). accepted (from n, clean)),
      (
        λ e. elim (rejects e) [
          | inl clash ↦ inl (λ n. clash (from n))
          | inr n ↦ inr (omega (arith, n))
        ],
        λ s.
            rejected
              (elim s [ inl clash ↦ inl (λ d. clash (to d)) | inr n ↦ inr (omega (arith, n)) ]),
      ),
    )
