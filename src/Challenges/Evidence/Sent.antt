-- ===== src/Challenges/Evidence/Sent.antt =====
-- What the verifier sees of the challenges of the generated bundle.
use mathlib.Core.Path.{subst}
use mathlib.Core.List.{Perm}
use mathlib.Core.List.Perm
use north_standard.Base.{
  ℕ, suc, Bool, true, not, ◌&&◌, any, List, [], ◌∷◌, ◌++◌, map, filter, length, ◌≡◌, refl, ◌∙◌, ap,
  arith, ok, >>=-eq-ok_then, ok-injective, if◌then◌else◌,
}
use north_standard.Base.Int.{ℤ, ◌+ℤ◌, ◌-ℤ◌, leb_ℤ, +ℤ_parts, -ℤ_parts}
use north_standard.Value.{Value, null, float, get}
use north_standard.Models.{ComputeContract, EvidenceRecord, challenge, is_type, check_record}
use north_standard.Simulator.{sort_records}
use north_standard.Simulator.Sorting.{filter-sort_records}
use north_standard.Challenges.{ChallengeSchedule, ChallengeExperimentConfig, is_honest_at, abs_ℤ}
use north_standard.Challenges.Evidence.{challenge_record, challenge_records}

-- Whether a time lies in one of the windows in which the provider behaves.
abbrev pub is_near : (predicted_times : List ℤ) → (radius : ℤ) → ℤ → Bool
is_near predicted radius t = any (λ p. leb_ℤ p (t +ℤ radius) && leb_ℤ t (p +ℤ radius)) predicted

near_one :
    (t p radius : ℤ)
    → leb_ℤ (abs_ℤ (t -ℤ p)) radius ≡ leb_ℤ p (t +ℤ radius) && leb_ℤ t (p +ℤ radius)
near_one t p radius = ground (arith, -ℤ_parts t p, +ℤ_parts t radius, +ℤ_parts p radius)

is_honest_at-is_near :
    (t : ℤ) (predicted : List ℤ) (radius : ℤ)
    → is_honest_at t predicted radius ≡ is_near predicted radius t
unfolding is_honest_at
is_honest_at-is_near t [] radius = refl
is_honest_at-is_near t (p ∷ ps) radius =
    ground (arith, near_one t p radius, is_honest_at-is_near t ps radius)

module _ {F : Type 0} where
  -- the time and the score of a challenge
  abbrev sight : EvidenceRecord F → ℤ × Value F
  sight r = (r.observed_at, get "score" null r.payload)

  -- the challenges among the records of a bundle
  abbrev pub seen : List (EvidenceRecord F) → List (ℤ × Value F)
  seen rs = map sight (filter (λ r. is_type r.evidence_type challenge) rs)

  -- what a provider leaves that behaves in its windows only
  abbrev pub left_at :
      ComputeContract F
      → ChallengeExperimentConfig F
      → (predicted_times : List ℤ) → (challenge_time : ℤ) → ℤ × Value F
  left_at contract config predicted t = (
    contract.delivery_start +ℤ t,
    float (
        if is_near predicted config.honesty_radius_seconds t
        then config.honest_score
        else config.cheat_score),
  )

-- the times at which the provider does not expect a challenge
abbrev pub far :
    {F : Type 0} → ChallengeExperimentConfig F → (predicted_times : List ℤ) → List ℤ → List ℤ
far config predicted = filter λ t. not (is_near predicted config.honesty_radius_seconds t)

module _ {F : Type 0} where
  -- the older challenges are dropped
  seen_anew :
      (old new : List (EvidenceRecord F))
      → seen (filter (λ r. not (is_type r.evidence_type challenge)) old ++ new) ≡ seen new
  seen_anew [] new = refl
  seen_anew (r ∷ old) new = ground (arith, seen_anew old new)

  -- what is seen of the sorted bundle
  pub seen_sorted :
      (old new : List (EvidenceRecord F)) (sights : List (ℤ × Value F))
      → seen new ≡ sights
      → Perm
          (seen (sort_records (filter (λ r. not (is_type r.evidence_type challenge)) old ++ new)))
          sights
  seen_sorted old new sights e =
      subst (Perm _) (seen_anew old new ∙ e)
        (Perm.map sight (filter-sort_records (λ r. is_type r.evidence_type challenge) _))

  module _ (contract : ComputeContract F) (s : ChallengeSchedule) (seed : ℤ) where
    challenge_record-sight :
        (k : ℕ) (t : ℤ) (score : F) (r : EvidenceRecord F)
        → challenge_record contract s seed k t score ≡ ok r
        → (is_type r.evidence_type challenge ≡ true)
          × (sight r ≡ (contract.delivery_start +ℤ t, float score))
    unfolding challenge_record check_record
    challenge_record-sight k t score r h = ground arith

    -- the records of the loop, and its counter
    pub challenge_records-seen :
        (config : ChallengeExperimentConfig F) (predicted : List ℤ) (k : ℕ) (ts : List ℤ)
        → (rs : List (EvidenceRecord F)) (n : ℕ)
        → challenge_records contract s seed config predicted k ts ≡ ok (rs, n)
        → (seen rs ≡ map (left_at contract config predicted) ts)
          × (n ≡ length (far config predicted ts))
    unfolding challenge_records
    challenge_records-seen config predicted k [] rs n h = ground (arith, h)
    challenge_records-seen config predicted k (t ∷ ts) rs n h =
        let honest = is_honest_at t predicted config.honesty_radius_seconds in
        let near = is_honest_at-is_near t predicted config.honesty_radius_seconds in
        >>=-eq-ok_then
          (challenge_record contract s seed k t
            (if honest then config.honest_score else config.cheat_score))
          _ (rs, n) h
          (λ r e₁ h₁.
            >>=-eq-ok_then (challenge_records contract s seed config predicted (suc k) ts) _ (rs, n)
              h₁
              (λ (others, m) e₂ h₂.
                let (is_one, shown) = challenge_record-sight k t _ r e₁ in
                let (rest, counted) =
                  challenge_records-seen config predicted (suc k) ts others m e₂ in
                let same =
                  shown
                  ∙ ap
                      (λ b. (
                        contract.delivery_start +ℤ t,
                        float (if b then config.honest_score else config.cheat_score),
                      ))
                      near in
                let all_ = ap (λ (p : List (EvidenceRecord F) × ℕ). p.0) (ok-injective _ _ h₂) in
                let total = ap (λ (p : List (EvidenceRecord F) × ℕ). p.1) (ok-injective _ _ h₂) in
                (
                  subst (λ xs. seen xs ≡ map (left_at contract config predicted) (t ∷ ts)) all_
                      (rw is_one (λ i. same i ∷ rest i)),
                  ground (arith, total, counted, near),
                )))
