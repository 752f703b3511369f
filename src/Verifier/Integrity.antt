-- ===== src/Verifier/Integrity.antt =====
-- src/north_standard/verifier.py, `_bundle_integrity_errors`.
pub mod Distinct
use Prim.Native.String.{◌++◌ as str_append}
use north_standard.Base.{
  String, Bool, false, ◌&&◌, ◌||◌, List, [], ◌∷◌, ◌++◌, str_eq, contains, if◌then◌else◌,
}
use north_standard.Base.Int.{ℤ, pos, ◌+ℤ◌, ◌-ℤ◌, eq_ℤ, ltb_ℤ}
use north_standard.Base.Codes.{sorted_set}
use north_standard.Models.{ComputeContract, EvidenceRecord, EvidenceBundle, delivery_end}

-- `seen_ids` and `seen_sequences`; the latter, a dictionary of sets, as the pairs of a key and a
-- member of its set
pub record Seen : Type 0 where
  pub ids : List String
  pub sequences : List (String × ℤ)

abbrev pub nothing_seen : Seen
nothing_seen = record { ids = []; sequences = [] }

-- `n in seen_sequences[key]`
abbrev pub has_sequence : String → ℤ → List (String × ℤ) → Bool
has_sequence key n [] = false
has_sequence key n ((k, m) ∷ seen) = (str_eq key k && eq_ℤ n m) || has_sequence key n seen

-- `errors.append(code)` under a test
abbrev pub error_if : Bool → String → List String
error_if b code = if b then code ∷ [] else []

module _ {F : Type 0} where
  -- `f"{record.producer_id}:{record.session_id}"`
  unfoldable pub sequence_key : EvidenceRecord F → String
  sequence_key r = str_append r.producer_id (str_append ":" r.session_id)

  abbrev pub see : EvidenceRecord F → Seen → Seen
  see r seen = record {
    ids = r.evidence_id ∷ seen.ids;
    sequences = (sequence_key r, r.sequence_number) ∷ seen.sequences;
  }

  -- the tests on the observation time
  unfoldable pub window_errors : ComputeContract F → EvidenceRecord F → List String
  window_errors contract r =
      error_if (ltb_ℤ r.observed_at (contract.delivery_start -ℤ pos 60))
        "EVIDENCE_BEFORE_DELIVERY_WINDOW"
      ++ error_if (ltb_ℤ (delivery_end contract +ℤ pos 60) r.observed_at)
          "EVIDENCE_AFTER_DELIVERY_WINDOW"

  -- the tests against the records that came before
  abbrev pub duplicate_errors : EvidenceRecord F → Seen → List String
  duplicate_errors r seen =
      error_if (contains r.evidence_id seen.ids) "DUPLICATE_EVIDENCE_ID"
      ++ error_if (has_sequence (sequence_key r) r.sequence_number seen.sequences)
          "DUPLICATE_SEQUENCE_NUMBER"

  -- the loop over the records, from what was seen before
  unfoldable pub errors_from : ComputeContract F → Seen → List (EvidenceRecord F) → List String
  errors_from contract seen [] = []
  errors_from contract seen (r ∷ rs) =
      duplicate_errors r seen ++ (window_errors contract r ++ errors_from contract (see r seen) rs)

  unfoldable pub bundle_integrity_errors : ComputeContract F → EvidenceBundle F → List String
  bundle_integrity_errors contract bundle =
      sorted_set (errors_from contract nothing_seen bundle.records)
