-- ===== src/Recorded/Bundle/Shape.antt =====
-- The records that `build_recorded_bundle` makes.
use mathlib.Core.Path.{subst}
use north_standard.Base.{
  map_result→All, check_each→All, ℕ, suc, String, List, [], ◌∷◌, ◌++◌, ◌≡◌, ◌≤◌, refl, sym, ap,
  arith, All, All-append, length, length-append, Result, ok, ◌>>=◌, >>=-eq-ok, >>=-eq-ok_then,
  ok-injective, map_result, check_each,
}
use north_standard.Base.Int.{ℤ}
use north_standard.Value.{Float, Value, null, Fields, end, field, get, item, as_dict, as_list}
use north_standard.Canonical.{Hashing}
use north_standard.Models.{ComputeContract, EvidenceRecord, EvidenceBundle, challenge, check_record}
use north_standard.Recorded.{Measure}
use north_standard.Recorded.Trace.{validate_trace}
use north_standard.Recorded.Calibration.{
  Normalized, list_at, text_at, int_at, score_sample, validate_calibration,
  ensure_trace_matches_calibration,
}
use north_standard.Recorded.Bundle.{
  Entry, plain_record, recorded_record, append_records, fixed_entries, common_provenance,
  sample_payload, sample_entry, sample_entries, check_recorded, first_observed,
  build_recorded_bundle,
}

module _ {F : Type 0} where
  -- An entry of a sample.
  pub record IsSampleEntry (e : Entry F) : Type 0 where
    pub normalized : Normalized F
    pub capture : Value F
    pub index : Value F
    pub compute : Value F
    pub memory : Value F
    pub is_challenge : e.evidence_type ≡ challenge
    pub payload_is : e.payload ≡ sample_payload normalized capture index compute memory

  -- The records of the entries, at rising sequence numbers.
  abbrev pub numbered :
      ComputeContract F → String → Fields F → ℕ → List (Entry F) → List (EvidenceRecord F)
  numbered contract producer common n [] = []
  numbered contract producer common n (e ∷ es) =
      plain_record contract producer common n e ∷ numbered contract producer common (suc n) es

  append_records-returns :
      (contract : ComputeContract F) (producer : String) (common : Fields F) (n : ℕ)
      (es : List (Entry F))
      → append_records contract producer common n es ≡ ok (numbered contract producer common n es)
  unfolding append_records recorded_record check_record
  append_records-returns contract producer common n [] = refl
  append_records-returns contract producer common n (e ∷ es) =
      ground (arith, append_records-returns contract producer common (suc n) es)

  get_of_item : (k : String) (d : Fields F) (v : Value F) → item k d ≡ ok v → get k null d ≡ v
  get_of_item k end v h = cc
  get_of_item k (field j w fs) v h = ground (arith, get_of_item k fs v)

module _ {F : Type 0} ⦃fl : Float F⦄ ⦃ms : Measure F⦄ where
  validate_trace-samples :
      (trace : Fields F) (vs : List (Value F))
      → validate_trace trace ≡ ok tt
      → list_at "samples" trace ≡ ok vs
      → 2 ≤ length vs
  unfolding validate_trace
  validate_trace-samples trace vs h e =
      let (w, e₁, e₂) = >>=-eq-ok (item "samples" trace) as_list e in
      let seen = get_of_item "samples" trace w e₁ in ground (arith, seen, e₂, h)

  sample_entry-IsSampleEntry :
      (trace calibration : Fields F) (v : Value F) (e : Entry F)
      → sample_entry trace calibration v ≡ ok e
      → IsSampleEntry e
  unfolding sample_entry
  sample_entry-IsSampleEntry trace calibration v e h =
      let (sample, _, h₁) = >>=-eq-ok (as_dict v) _ h in
      let (observed, _, h₂) = >>=-eq-ok (int_at "observed_at_unix_ms" sample) _ h₁ in
      let (scored, _, h₃) = >>=-eq-ok (score_sample sample calibration) _ h₂ in
      let (name, _, h₄) = >>=-eq-ok (text_at "capture_id" trace) _ h₃ in
      let (number, _, h₅) = >>=-eq-ok (int_at "sample_index" sample) _ h₄ in
      let (by_compute, _, h₆) = >>=-eq-ok (item "compute_gflops" sample) _ h₅ in
      let (by_memory, _, h₇) = >>=-eq-ok (item "memory_gbps" sample) _ h₆ in
      let (capture_value, _, h₈) = >>=-eq-ok (item "capture_id" trace) _ h₇ in
      let (index_value, _, h₉) = >>=-eq-ok (item "sample_index" sample) _ h₈ in
      record {
        normalized = scored;
        capture = capture_value;
        index = index_value;
        compute = by_compute;
        memory = by_memory;
        is_challenge = ap (λ (x : Entry F). x.evidence_type) (sym (ok-injective _ _ h₉));
        payload_is = ap (λ (x : Entry F). x.payload) (sym (ok-injective _ _ h₉));
      }

  sample_entries-IsSampleEntry :
      (calibration : Fields F) (traces : List (Fields F)) (es : List (Entry F))
      → sample_entries calibration traces ≡ ok es
      → All IsSampleEntry es
  unfolding sample_entries
  sample_entries-IsSampleEntry calibration [] es h =
      subst (All IsSampleEntry) (ok-injective _ _ h) tt
  sample_entries-IsSampleEntry calibration (trace ∷ traces) es h =
      let (vs, h₁, h₂) = >>=-eq-ok (list_at "samples" trace) _ h in
      let (entries, h₃, h₄) = >>=-eq-ok (map_result (sample_entry trace calibration) vs) _ h₂ in
      let (others, h₅, h₆) = >>=-eq-ok (sample_entries calibration traces) _ h₄ in
      let (many, _) =
        map_result→All IsSampleEntry (sample_entry trace calibration)
          (sample_entry-IsSampleEntry trace calibration) vs entries h₃ in
      subst (All IsSampleEntry) (ok-injective _ _ h₆) (
        All-append IsSampleEntry entries others many
          (sample_entries-IsSampleEntry calibration traces others h₅))

  -- A valid first trace alone gives two entries.
  length-sample_entries :
      (calibration trace : Fields F) (traces : List (Fields F)) (es : List (Entry F))
      → validate_trace trace ≡ ok tt
      → sample_entries calibration (trace ∷ traces) ≡ ok es
      → 2 ≤ length es
  unfolding sample_entries
  length-sample_entries calibration trace traces es valid h =
      let (vs, h₁, h₂) = >>=-eq-ok (list_at "samples" trace) _ h in
      let (entries, h₃, h₄) = >>=-eq-ok (map_result (sample_entry trace calibration) vs) _ h₂ in
      let (others, h₅, h₆) = >>=-eq-ok (sample_entries calibration traces) _ h₄ in
      let (_, n) =
        map_result→All IsSampleEntry (sample_entry trace calibration)
          (sample_entry-IsSampleEntry trace calibration) vs entries h₃ in
      subst (λ xs. 2 ≤ length xs) (ok-injective _ _ h₆)
        (omega (arith, validate_trace-samples trace vs valid h₁, n, length-append entries others))

  -- The bundle holds the three fixed records and, after them, the records of at least two samples.
  pub record IsRecorded (contract : ComputeContract F) (producer : String)
      (bundle : EvidenceBundle F) : Type 0 where
    pub observed : ℤ
    pub device : Fields F
    pub fingerprint : Value F
    pub calibration_id : Value F
    pub entries : List (Entry F)
    pub samples : All IsSampleEntry entries
    pub enough : 2 ≤ length entries
    pub is_bundle : bundle ≡ record {
      contract_id = contract.contract_id;
      session_id = contract.session_id;
      records =
          numbered contract producer
            (common_provenance fingerprint calibration_id)
            1
            (fixed_entries contract observed device ++ entries);
      schema_version = "evidence-bundle/0.1";
    }

module _ {F : Type 0} ⦃fl : Float F⦄ ⦃ms : Measure F⦄ ⦃hs : Hashing F⦄ where
  check_recorded-valid :
      (contract : ComputeContract F) (calibration trace : Fields F)
      → check_recorded contract calibration trace ≡ ok tt
      → validate_trace trace ≡ ok tt
  unfolding check_recorded ensure_trace_matches_calibration
  check_recorded-valid contract calibration trace h =
      let (_, e, _) = >>=-eq-ok (ensure_trace_matches_calibration trace calibration) _ h in
      (>>=-eq-ok (validate_trace trace) _ e).1

  -- the last steps of `build_recorded_bundle`
  abbrev collected :
      ComputeContract F
      → String
      → Fields F
      → ℤ
      → Fields F
      → List (Entry F)
      → Result (EvidenceBundle F)
  collected contract producer common observed device entries = do
    made ←
        append_records contract producer common 1
          (fixed_entries contract observed device ++ entries)
    ok (record {
      contract_id = contract.contract_id;
      session_id = contract.session_id;
      records = made;
      schema_version = "evidence-bundle/0.1";
    })

  collected-IsRecorded :
      (contract : ComputeContract F) (first : Fields F) (others : List (Fields F))
      (calibration : Fields F) (producer : String) (seen : ℤ) (device : Fields F)
      (print id : Value F) (es : List (Entry F)) (bundle : EvidenceBundle F)
      → validate_trace first ≡ ok tt
      → sample_entries calibration (first ∷ others) ≡ ok es
      → collected contract producer (common_provenance print id) seen device es ≡ ok bundle
      → IsRecorded contract producer bundle
  collected-IsRecorded contract first others calibration producer seen fields print id es bundle
        valid made h =
      record {
        observed = seen;
        device = fields;
        fingerprint = print;
        calibration_id = id;
        entries = es;
        samples = sample_entries-IsSampleEntry calibration (first ∷ others) es made;
        enough = length-sample_entries calibration first others es valid made;
        is_bundle = ok-injective _ _ (
            sym (
              rw
                (append_records-returns contract producer (common_provenance print id) 1
                  (fixed_entries contract seen fields ++ es))
                at h));
      }

  pub build_recorded_bundle-IsRecorded :
      (contract : ComputeContract F) (traces : List (Fields F)) (calibration : Fields F)
      (producer : String) (bundle : EvidenceBundle F)
      → build_recorded_bundle contract traces calibration producer ≡ ok bundle
      → IsRecorded contract producer bundle
  unfolding build_recorded_bundle
  build_recorded_bundle-IsRecorded contract [] calibration producer bundle h = cc
  build_recorded_bundle-IsRecorded contract (first ∷ others) calibration producer bundle h =
      >>=-eq-ok_then (validate_calibration calibration) _ _ h (λ _ _ h₁.
        >>=-eq-ok_then (check_each (check_recorded contract calibration) (first ∷ others)) _ _ h₁
          (λ _ checked h₂. >>=-eq-ok_then (first_observed first) _ _ h₂ (λ seen _ h₃.
            >>=-eq-ok_then (item "device_fingerprint" calibration) _ _ h₃ (λ print _ h₄.
              >>=-eq-ok_then (item "calibration_id" calibration) _ _ h₄ (λ id _ h₅.
                >>=-eq-ok_then (item "device" first) _ _ h₅ (λ device_value _ h₆.
                  >>=-eq-ok_then (as_dict device_value) _ _ h₆ (λ fields _ h₇.
                    >>=-eq-ok_then (sample_entries calibration (first ∷ others)) _ _ h₇
                      (λ es made h₈.
                        collected-IsRecorded contract first others calibration producer seen fields
                          print id es bundle
                          (check_recorded-valid contract calibration first
                            (check_each→All (check_recorded contract calibration) (first ∷ others)
                              checked).0)
                          made h₈))))))))
