-- ===== src/Verifier/Runtime/Affirming.antt =====
-- When `_runtime_claim` affirms.
use north_standard.Base.{false, true, ◌≡◌, ◌↔◌, arith, is_empty, All, filter, List, refl, [], ◌∷◌}
use north_standard.Value.{Float, null, boolean, get, is_text, truthy}
use north_standard.Models.{
  ComputeContract, EvidenceBundle, EvidenceRecord, affirming, runtime_check,
}
use north_standard.Verifier.Records.{bound_records}
use north_standard.Verifier.Runtime.{runtime_claim, is_incompatible}

module _ {F : Type 0} ⦃fl : Float F⦄ (contract : ComputeContract F) where
  -- The record reports a usable runtime of the profile that the contract names.
  abbrev pub IsCompatible : EvidenceRecord F → Type 0
  IsCompatible r =
      (truthy (get "usable" (boolean false) r.payload) ≡ true)
      × (is_text contract.runtime_profile_id (get "runtime_profile_id" null r.payload) ≡ true)

  IsCompatible-iff : (r : EvidenceRecord F) → (is_incompatible contract r ≡ false) ↔ IsCompatible r
  IsCompatible-iff r = ground arith

  incompatible_none :
      (rs : List (EvidenceRecord F))
      → (is_empty (filter (is_incompatible contract) rs) ≡ true) ↔ All IsCompatible rs
  incompatible_none [] = (λ _. tt, λ _. refl)
  incompatible_none (r ∷ rs) =
      let (one, other) = IsCompatible-iff r in
      let (some_, others) = incompatible_none rs in ground (arith, one, other, some_, others)

  -- The runtime claim is affirmed exactly when there is a bound runtime record, and all bound
  -- runtime records report a usable runtime of the contract's profile.
  pub runtime_claim_affirms :
      (bundle : EvidenceBundle F)
      → ((runtime_claim contract bundle).state ≡ affirming) ↔ (
          (is_empty (bound_records contract bundle runtime_check) ≡ false)
          × All IsCompatible (bound_records contract bundle runtime_check))
  unfolding runtime_claim
  runtime_claim_affirms bundle =
      let (to, from) = incompatible_none (bound_records contract bundle runtime_check) in
      ground (arith, to, from)
