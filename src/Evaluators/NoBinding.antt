-- ===== src/Evaluators/NoBinding.antt =====
-- The ablation without the session binding against the verifier.
use mathlib.Core.Path.{subst}
use mathlib.Core.Option.{some-injective}
use north_standard.Base.{
  String, Bool, List, [], ◌∷◌, filter, ◌≡◌, refl, ap, arith, All, none, ok, str_eq_refl, ◌++◌, ◌↔◌,
  ◌≢◌, true, Bool-cases, Option, str_eq_iff, inl, inr, some, str_eq, not,
}
use north_standard.Base.Codes.{sorted_set}
use north_standard.Value.{Float}
use north_standard.Canonical.{Hashing}
use north_standard.Models.{
  ComputeContract, EvidenceRecord, EvidenceBundle, ClaimResult, VerifierResult, delivery_end,
  affirming, accept, check_contract,
}
use north_standard.Policy.{VerifierPolicy, default_policy}
use north_standard.Verifier.{verify, appraise, outcome}
use north_standard.Verifier.Performance.{performance_claim}
use north_standard.Verifier.Binding.{binding_claim}
use north_standard.Verifier.Runtime.{runtime_claim}
use north_standard.Verifier.Availability.{availability_claim}
use north_standard.Verifier.Performance.{performance_metrics}
use north_standard.Verifier.Integrity.{
  bundle_integrity_errors, errors_from, window_errors, Seen, see, nothing_seen, duplicate_errors,
}
use north_standard.Verifier.Integrity.Distinct.{AllDiffer, fatal_integrity-empty_iff}
use north_standard.Verifier.Outcome.{fatal_integrity, select_claims, find_claim}
use north_standard.Verifier.Outcome.Deciding.{decide-accept_iff}
use north_standard.Verifier.Verdict.{verify-IsVerified}
use north_standard.Evaluators.{evaluate, evaluate_full, ablation_no_binding, drop_binding}
use north_standard.Evaluators.Baselines.{EvaluationOutcome}

module _ {F : Type 0} (claims : List (String × ClaimResult F)) where
  -- what a list of claims asks, where only those that pass a test count
  abbrev pub AllAffirmed : (String → Type 0) → List String → Type 0
  AllAffirmed Counts =
      All (λ k. Counts k → (c : ClaimResult F) → find_claim k claims ≡ some c → c.state ≡ affirming)

  select_cons :
      (k : String) (ids : List String)
      → All (λ c. c.state ≡ affirming) (select_claims (k ∷ ids) claims) ↔ (
          ((c : ClaimResult F) → find_claim k claims ≡ some c → c.state ≡ affirming)
          × All (λ c. c.state ≡ affirming) (select_claims ids claims))
  select_cons k ids = with_found (find_claim k claims)
    where
      with_found :
          (o : Option (ClaimResult F))
          → All
              (λ c. c.state ≡ affirming)
              (elim o [ none ↦ select_claims ids claims | some c ↦ c ∷ select_claims ids claims ])
            ↔ (((c : ClaimResult F) → o ≡ some c → c.state ≡ affirming)
                × All (λ c. c.state ≡ affirming) (select_claims ids claims))
      with_found none = ((λ h. ((λ c e. cc e), h)), λ h. h.1)
      with_found (some d) = (
        λ h. (
          λ c e. subst (λ (x : ClaimResult F). x.state ≡ affirming) (some-injective d c e) h.0,
          h.1,
        ),
        λ h. (h.0 d refl, h.1),
      )

  module _ (p : String → Bool) (Counts : String → Type 0)
      (kept : (k : String) → (p k ≡ true) ↔ Counts k) where
    affirmed-filter :
        (ids : List String)
        → All (λ c. c.state ≡ affirming) (select_claims (filter p ids) claims)
          ↔ AllAffirmed Counts ids
    affirmed-filter [] = ((λ h. tt), λ h. tt)
    affirmed-filter (k ∷ ids) =
        let (to, from) = affirmed-filter ids in
        let (now, back) = kept k in
        let (split, join) = select_cons k (filter p ids) in
        elim (Bool-cases (p k)) [
          | inl stays ↦ rw stays (
            (λ h. let (a, b) = split h in ((λ u. a), to b)),
            λ h. join (h.0 (now stays), from h.1),
          )
          | inr goes ↦ rw goes ((λ h. ((λ u. cc (back u, goes)), to h)), λ h. from h.1)
        ]

  affirmed-others :
      (ids : List String)
      → All
          (λ c. c.state ≡ affirming)
          (select_claims (filter (λ k. not (str_eq k "session.binding")) ids) claims)
        ↔ AllAffirmed (λ k. k ≢ "session.binding") ids
  affirmed-others =
      affirmed-filter (λ k. not (str_eq k "session.binding")) _
        (λ k.
          let (to, from) = str_eq_iff k "session.binding" in
          ((λ h e. cc (from e, h)), λ n. ground (arith, n)))

module _ {F : Type 0} ⦃fl : Float F⦄ ⦃hs : Hashing F⦄ (contract : ComputeContract F)
    (bundle : EvidenceBundle F) where
  errors_from-drop_binding :
      (seen : Seen) (rs : List (EvidenceRecord F))
      → errors_from (drop_binding contract) seen rs ≡ errors_from contract seen rs
  unfolding errors_from window_errors delivery_end
  errors_from-drop_binding seen [] = refl
  errors_from-drop_binding seen (r ∷ rs) =
      ap (λ later. duplicate_errors r seen ++ (window_errors contract r ++ later))
        (errors_from-drop_binding (see r seen) rs)

  errors-drop_binding :
      bundle_integrity_errors (drop_binding contract) bundle
      ≡ bundle_integrity_errors contract bundle
  unfolding bundle_integrity_errors
  errors-drop_binding = ap sorted_set (errors_from-drop_binding nothing_seen bundle.records)

  appraise-drop_binding :
      (policy : VerifierPolicy)
      → appraise (drop_binding contract) bundle policy ≡ appraise contract bundle policy
  unfolding appraise binding_claim runtime_claim availability_claim performance_claim
      performance_metrics
  appraise-drop_binding policy = refl

  check-drop_binding :
      check_contract contract ≡ ok contract
      → check_contract (drop_binding contract) ≡ ok (drop_binding contract)
  unfolding check_contract
  check-drop_binding c = ground arith

  -- Of a contract that was constructed, and whose verification returns, the evaluation without the
  -- session binding returns too. It accepts exactly when no two records of the bundle repeat an evidence
  -- identifier, or the text "producer:session" with a sequence number, and each mandatory claim other
  -- than "session.binding" is affirmed, where the verifier knows it.
  pub no_binding_accepts :
      (r : VerifierResult F)
      → check_contract contract ≡ ok contract
      → verify contract bundle none ≡ ok r
      → (o : EvaluationOutcome) × (evaluate ablation_no_binding contract bundle ≡ ok o)
        × ((o.decision ≡ accept) ↔ (
            AllDiffer bundle.records
            × AllAffirmed r.claims (λ k. k ≢ "session.binding") contract.mandatory_claims))
  unfolding evaluate evaluate_full verify outcome
  no_binding_accepts r c v =
      let run = verify-IsVerified contract bundle none r v in
      let ablated = drop_binding contract in
      let verdict = outcome ablated (bundle_integrity_errors contract bundle) r.claims in
      let fatal = fatal_integrity (bundle_integrity_errors contract bundle) in
      let (clean, differ) = fatal_integrity-empty_iff contract bundle in
      let (to, from) = decide-accept_iff fatal (select_claims ablated.mandatory_claims r.claims) in
      let (others, all_) = affirmed-others r.claims contract.mandatory_claims in
      (
        record { decision = verdict.0; reason_codes = verdict.1 },
        ground (
          arith,
          check-drop_binding c,
          str_eq_refl contract.verifier_policy_id,
          appraise-drop_binding (default_policy contract.verifier_policy_id),
          run.appraised,
          run.hashed,
          errors-drop_binding,
        ),
        (λ k. let (a, b) = to k in (clean a, others b), λ (a, b). from (differ a, all_ b)),
      )
