-- ===== src/Verifier/Returning.antt =====
-- When `verify` returns a verdict rather than raise.
use north_standard.Base.{
  Bool, true, List, [], ◌∷◌, ◌≡◌, refl, ap, arith, All, All-map, length, ok, ◌>>=◌, Result,
  map_result, filter_result, Option, str_eq_iff, returns_of_no_error, Bool-cases, inl, inr, ◌≤◌,
  if◌then◌else◌,
}
use north_standard.Base.Int.{ℤ, pos, ◌≤ℤ◌, ltb_ℤ}
use north_standard.Value.{Float, Value, null, get, is_hashable}
use north_standard.Canonical.{Hashing}
use north_standard.Models.{
  ComputeContract, EvidenceRecord, EvidenceBundle, VerifierResult, external_probe, telemetry,
  challenge, bundle_root,
}
use north_standard.Policy.{VerifierPolicy}
use north_standard.Verifier.{verify, appraise, policy_or_default}
use north_standard.Verifier.Records.{bound_records}
use north_standard.Verifier.Availability.{
  availability_claim, judge_availability, is_ambiguous, in_ambiguous_set,
}
use north_standard.Verifier.Performance.{
  performance_claim, performance_metrics, valid_challenges, score_of, is_breach,
}

-- The call returns.
abbrev pub Returns {ℓ} : {A : Type ℓ} → Result A → Type ℓ
Returns {A = A} m = (a : A) × (m ≡ ok a)

filter_result-Returns {ℓ} :
    {A : Type ℓ} (p : A → Result Bool) (xs : List A)
    → All (λ x. Returns (p x)) xs
    → Returns (filter_result p xs)
filter_result-Returns p [] h = ([], refl)
filter_result-Returns p (x ∷ xs) ((b, e), h) =
    let (ys, e') = filter_result-Returns p xs h in (if b then x ∷ ys else ys, ground (arith, e, e'))

-- As many results as there were arguments.
map_result-Returns {ℓ κ} :
    {A : Type ℓ} {B : Type κ} (f : A → Result B) (xs : List A)
    → All (λ x. Returns (f x)) xs
    → (ys : List B) × (map_result f xs ≡ ok ys) × (length ys ≡ length xs)
map_result-Returns f [] h = ([], refl, refl)
map_result-Returns f (x ∷ xs) ((y, e), h) =
    let (ys, e', n) = map_result-Returns f xs h in
    (y ∷ ys, ground (arith, e, e'), ground (arith, n))

module _ {F : Type 0} where
  in_ambiguous_set-Returns : (v : Value F) → is_hashable v ≡ true → Returns (in_ambiguous_set v)
  in_ambiguous_set-Returns v h = returns_of_no_error _ λ x raised. ground (arith, h, raised)

  is_ambiguous-Returns :
      (r : EvidenceRecord F)
      → is_hashable (get "attribution" null r.payload) ≡ true
      → Returns (is_ambiguous r)
  is_ambiguous-Returns r h =
      let looked = in_ambiguous_set-Returns (get "attribution" null r.payload) h in
      returns_of_no_error _ λ x raised. ground (arith, looked.1, raised)

module _ {F : Type 0} ⦃fl : Float F⦄ (contract : ComputeContract F)
    (bundle : EvidenceBundle F) where
  judge_availability-Returns :
      (ts ps cs : List (EvidenceRecord F))
      → All (λ p. is_hashable (get "attribution" null p.payload) ≡ true) ps
      → Returns (judge_availability ts ps cs)
  unfolding judge_availability
  judge_availability-Returns ts ps cs h =
      let (unclear, e) =
        filter_result-Returns is_ambiguous ps (All-map is_ambiguous-Returns ps h) in
      returns_of_no_error _ λ x raised. ground (arith, e, raised)

  performance_metrics-Returns :
      (n m : ℤ) (scores : List F)
      → 1 ≤ length scores
      → Returns (performance_metrics contract n m scores)
  unfolding performance_metrics
  performance_metrics-Returns n m [] h = absurd (omega (arith, h))
  performance_metrics-Returns n m (x ∷ xs) h = (_, refl)

-- What `verify` needs of its arguments to return: the policy is the contract's and asks for at least
-- one challenge; the attribution of every bound probe can be hashed, and the score of every valid
-- challenge becomes a float; the bundle can be serialized.
pub record IsReadable {F : Type 0} ⦃fl : Float F⦄ ⦃hs : Hashing F⦄ (contract : ComputeContract F)
    (bundle : EvidenceBundle F) (policy : VerifierPolicy) : Type 0 where
  pub policy_matches : policy.policy_id ≡ contract.verifier_policy_id
  pub asked : pos 1 ≤ℤ policy.minimum_valid_challenges
  pub attributions :
      All
        (λ p. is_hashable (get "attribution" null p.payload) ≡ true)
        (bound_records contract bundle external_probe)
  pub scores : All (λ r. Returns (score_of r)) (valid_challenges contract bundle)
  pub serialized : Returns (bundle_root bundle)

module _ {F : Type 0} ⦃fl : Float F⦄ ⦃hs : Hashing F⦄ (contract : ComputeContract F)
    (bundle : EvidenceBundle F) (policy : VerifierPolicy)
    (readable : IsReadable contract bundle policy) where
  is_breach-Returns : (r : EvidenceRecord F) → Returns (score_of r) → Returns (is_breach contract r)
  is_breach-Returns r (x, e) =
      (_, ap (λ m. m >>= λ s. ok (fl.lt s contract.performance_min_score)) e)

  performance_claim-Returns : Returns (performance_claim contract bundle policy)
  unfolding performance_claim
  performance_claim-Returns =
      let valid = valid_challenges contract bundle in
      let (scores, e, n) = map_result-Returns score_of valid readable.scores in
      let (breaches, e') =
        filter_result-Returns (is_breach contract) valid
          (All-map is_breach-Returns valid readable.scores) in
      elim (Bool-cases (ltb_ℤ (pos (length valid)) policy.minimum_valid_challenges)) [
        | inl few ↦ returns_of_no_error _ λ x raised. ground (arith, few, raised)
        | inr enough ↦
            let asked = readable.asked in
            let (metrics, m) =
              performance_metrics-Returns contract bundle (pos (length valid))
                (pos (length breaches)) scores (ground (arith, enough, asked, n)) in
            returns_of_no_error _ λ x raised. ground (arith, enough, raised, e, e', m)
      ]

  availability_claim-Returns : Returns (availability_claim contract bundle)
  unfolding availability_claim
  availability_claim-Returns =
      judge_availability-Returns contract bundle (bound_records contract bundle telemetry)
        (bound_records contract bundle external_probe) (bound_records contract bundle challenge)
        readable.attributions

  appraise-Returns : Returns (appraise contract bundle policy)
  unfolding appraise
  appraise-Returns =
      let (a, e) = availability_claim-Returns in
      let (p, e') = performance_claim-Returns in
      returns_of_no_error _ λ x raised. ground (arith, e, e', raised)

-- `verify` returns a verdict where the policy is the contract's and asks for at least one challenge,
-- the attributions of the bound probes can be hashed, the scores of the valid challenges become
-- floats, and the bundle can be serialized.
pub verify_returns :
    {F : Type 0} ⦃fl : Float F⦄ ⦃hs : Hashing F⦄ (contract : ComputeContract F)
    (bundle : EvidenceBundle F) (given : Option VerifierPolicy)
    → IsReadable contract bundle (policy_or_default contract given)
    → (result : VerifierResult F) × (verify contract bundle given ≡ ok result)
unfolding verify
verify_returns contract bundle given readable =
    let policy = policy_or_default contract given in
    let (claims, e) = appraise-Returns contract bundle policy readable in
    let (root, e') = readable.serialized in
    let same =
      (str_eq_iff policy.policy_id contract.verifier_policy_id).1 readable.policy_matches in
    returns_of_no_error _ λ x raised. ground (arith, e, e', same, raised)
