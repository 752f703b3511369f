-- ===== src/Verifier/Integrity/Distinct.antt =====
-- The fatal integrity errors are raised exactly by records that repeat an earlier one.
use north_standard.Base.{
  Bool, true, false, ◌||◌, List, [], ◌∷◌, ◌≡◌, ◌≢◌, ◌↔◌, refl, arith, All, All-map, All-zip,
  contains, str_eq_iff, is_empty,
}
use north_standard.Base.Int.{eq_ℤ_iff}
use north_standard.Base.Codes.{contains-append, contains-sorted_set}
use north_standard.Models.{ComputeContract, EvidenceRecord, EvidenceBundle}
use north_standard.Verifier.Integrity.{
  Seen, nothing_seen, see, has_sequence, sequence_key, window_errors, errors_from,
  bundle_integrity_errors,
}
use north_standard.Verifier.Outcome.{fatal_integrity}

module _ {F : Type 0} where
  -- Two records with different identifiers, which differ in the key of the producer and the session
  -- or in the sequence number.
  abbrev pub Differ : EvidenceRecord F → EvidenceRecord F → Type 0
  Differ r s =
      (s.evidence_id ≢ r.evidence_id)
      × ¬ ((sequence_key s ≡ sequence_key r) × (s.sequence_number ≡ r.sequence_number))

  -- Every two records of the list differ.
  abbrev pub AllDiffer : List (EvidenceRecord F) → Type 0
  AllDiffer [] = Unit
  AllDiffer (r ∷ rs) = All (Differ r) rs × AllDiffer rs

  -- a record that repeats nothing seen so far
  abbrev IsFresh : Seen → EvidenceRecord F → Type 0
  IsFresh seen r =
      (contains r.evidence_id seen.ids ≡ false)
      × (has_sequence (sequence_key r) r.sequence_number seen.sequences ≡ false)

  IsFresh-see :
      (seen : Seen) (r s : EvidenceRecord F)
      → IsFresh (see r seen) s ↔ (Differ r s × IsFresh seen s)
  IsFresh-see seen r s = ground (
    arith,
    str_eq_iff s.evidence_id r.evidence_id,
    str_eq_iff (sequence_key s) (sequence_key r),
    eq_ℤ_iff s.sequence_number r.sequence_number,
  )

  abbrev repeats : Seen → List (EvidenceRecord F) → Bool
  repeats seen [] = false
  repeats seen (r ∷ rs) =
      contains r.evidence_id seen.ids
      || has_sequence (sequence_key r) r.sequence_number seen.sequences
      || repeats (see r seen) rs

  repeats-false→All :
      (seen : Seen) (rs : List (EvidenceRecord F))
      → repeats seen rs ≡ false
      → All (IsFresh seen) rs × AllDiffer rs
  repeats-false→All seen [] h = (tt, tt)
  repeats-false→All seen (r ∷ rs) h =
      let (fresh, differ) = repeats-false→All (see r seen) rs (ground arith) in
      (
        (ground arith, All-map (λ s f. ((IsFresh-see seen r s).0 f).1) rs fresh),
        (All-map (λ s f. ((IsFresh-see seen r s).0 f).0) rs fresh, differ),
      )

  All→repeats-false :
      (seen : Seen) (rs : List (EvidenceRecord F))
      → All (IsFresh seen) rs
      → AllDiffer rs
      → repeats seen rs ≡ false
  All→repeats-false seen [] h d = refl
  All→repeats-false seen (r ∷ rs) (f, fs) (d, ds) = ground (
    arith,
    All→repeats-false (see r seen) rs
        (All-map (λ s g. (IsFresh-see seen r s).1 g) rs (All-zip (Differ r) (IsFresh seen) rs d fs))
        ds,
  )

  window_clean :
      (contract : ComputeContract F) (r : EvidenceRecord F)
      → (contains "DUPLICATE_EVIDENCE_ID" (window_errors contract r) ≡ false)
        × (contains "DUPLICATE_SEQUENCE_NUMBER" (window_errors contract r) ≡ false)
  unfolding window_errors
  window_clean contract r = ground arith

  fatal-repeats :
      (contract : ComputeContract F) (seen : Seen) (rs : List (EvidenceRecord F))
      → (contains "DUPLICATE_EVIDENCE_ID" (errors_from contract seen rs)
          || contains "DUPLICATE_SEQUENCE_NUMBER" (errors_from contract seen rs))
        ≡ repeats seen rs
  unfolding errors_from
  fatal-repeats contract seen [] = refl
  fatal-repeats contract seen (r ∷ rs) =
      let later = errors_from contract (see r seen) rs in
      simp (contains-append, (window_clean contract r).0, (window_clean contract r).1)
        (ground (arith, fatal-repeats contract (see r seen) rs))

  -- `verify` finds no fatal integrity error exactly when every two records of the bundle have
  -- different evidence identifiers, and differ in the key "producer:session" or in the sequence
  -- number.
  pub fatal_integrity-empty_iff :
      (contract : ComputeContract F) (bundle : EvidenceBundle F)
      → (is_empty (fatal_integrity (bundle_integrity_errors contract bundle)) ≡ true)
        ↔ AllDiffer bundle.records
  unfolding bundle_integrity_errors
  fatal_integrity-empty_iff contract bundle =
      let errors = errors_from contract nothing_seen bundle.records in
      let same = fatal-repeats contract nothing_seen bundle.records in
      let one = contains-sorted_set "DUPLICATE_EVIDENCE_ID" errors in
      let two = contains-sorted_set "DUPLICATE_SEQUENCE_NUMBER" errors in
      (
        λ h. (repeats-false→All nothing_seen bundle.records (ground (arith, same, one, two))).1,
        λ d.
            let none_ : repeats nothing_seen bundle.records ≡ false =
              All→repeats-false nothing_seen bundle.records (fresh_ bundle.records) d in
            ground (arith, same, one, two),
      )
    where
      fresh_ : (rs : List (EvidenceRecord F)) → All (IsFresh nothing_seen) rs
      fresh_ [] = tt
      fresh_ (r ∷ rs) = ((refl, refl), fresh_ rs)
