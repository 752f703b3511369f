-- ===== src/Verifier/Outcome/Deciding.antt =====
-- What `decide` and `add_integrity` compute from the mandatory claims.
use north_standard.Base.{
  String, Bool, true, false, not, ◌&&◌, List, [], ◌∷◌, ◌++◌, ◌≡◌, ◌≢◌, ◌↔◌, ◌⊎◌, inl, inr, refl,
  arith, All, All-map, all, is_empty, filter, concat_map, if◌then◌else◌, all→All, All→all,
  Bool-cases,
}
use north_standard.Base.Codes.{
  IsStrictlySorted, sorted_set-IsStrictlySorted, sorted_set-eq_of_sorted, is_empty-sorted_set,
}
use north_standard.Models.{
  ClaimResult, ClaimState, affirming, contradicting, unknown, invalid, not_evaluated, is_state,
  is_state_iff, Decision, accept, reject,
}
use north_standard.Verifier.Outcome.{decide, add_integrity, any_in}

-- a decision whose reason codes are in order
data IsOrdered (d : Decision × List String) : Type 0 where
  ordered : IsStrictlySorted d.1 → IsOrdered d

codes_ordered : {d : Decision × List String} → IsOrdered d → IsStrictlySorted d.1
codes_ordered (ordered h) = h

either :
    (b : Bool) {p q : Decision × List String}
    → IsOrdered p
    → IsOrdered q
    → IsOrdered (if b then p else q)
either true h k = h
either false h k = k

module _ {F : Type 0} where
  affirm-others :
      (s : ClaimState) (cs : List (ClaimResult F))
      → is_state affirming s ≡ false
      → All (λ c. c.state ≡ affirming) cs
      → any_in s cs ≡ false
  affirm-others s [] n h = refl
  affirm-others s (c ∷ cs) n (e, h) = rw e (ground (arith, affirm-others s cs n h))

  affirm-all :
      (cs : List (ClaimResult F))
      → All (λ c. c.state ≡ affirming) cs
      → all (λ c. is_state c.state affirming) cs ≡ true
  affirm-all cs h =
      All→all (λ c. is_state c.state affirming) cs
        (All-map (λ c. (is_state_iff c.state affirming).1) cs h)

  -- Acceptance wants no fatal error and all the mandatory claims affirmed.
  pub decide-accept_iff :
      (fatal : List String) (cs : List (ClaimResult F))
      → ((decide fatal cs).0 ≡ accept)
        ↔ ((is_empty fatal ≡ true) × All (λ c. c.state ≡ affirming) cs)
  unfolding decide
  decide-accept_iff fatal cs = (
    λ h. (
      ground arith,
      All-map (λ c. (is_state_iff c.state affirming).0) cs
          (all→All (λ c. is_state c.state affirming) cs (ground arith)),
    ),
    λ (clean, h). ground (
      arith,
      affirm-others contradicting cs refl h,
      affirm-others invalid cs refl h,
      affirm-others unknown cs refl h,
      affirm-all cs h,
    ),
  )

  -- Rejection wants a fatal error, or a mandatory claim that is contradicted or invalid.
  pub decide-reject_iff :
      (fatal : List String) (cs : List (ClaimResult F))
      → ((decide fatal cs).0 ≡ reject) ↔ (
          (is_empty fatal ≡ false)
          ⊎ ((any_in contradicting cs ≡ true) ⊎ (any_in invalid cs ≡ true)))
  unfolding decide
  decide-reject_iff fatal cs = ground arith

  -- A claim that does not affirm gives a reason, and every claim was evaluated.
  pub record IsReasoned (c : ClaimResult F) : Type 0 where
    pub evaluated : c.state ≢ not_evaluated
    pub reasoned : c.state ≢ affirming → is_empty c.reason_codes ≡ false

  abbrev codes_of : ClaimState → List (ClaimResult F) → List String
  codes_of s cs = concat_map (λ c. c.reason_codes) (filter (λ c. is_state c.state s) cs)

  codes_of-nonempty :
      (s : ClaimState) (cs : List (ClaimResult F))
      → s ≢ affirming
      → All IsReasoned cs
      → any_in s cs ≡ true
      → is_empty (codes_of s cs) ≡ false
  codes_of-nonempty s [] n h e = cc
  codes_of-nonempty s (c ∷ cs) n (r, rs) e = elim (Bool-cases (is_state c.state s)) [
    | inl same ↦
        let eq = (is_state_iff c.state s).0 same in
        rw same (append-nonempty c.reason_codes _ (r.reasoned (rw eq n)))
    | inr other ↦ rw other (codes_of-nonempty s cs n rs (rw other at e))
  ]
    where
      append-nonempty : (xs ys : List String) → is_empty xs ≡ false → is_empty (xs ++ ys) ≡ false
      append-nonempty [] ys k = cc
      append-nonempty (x ∷ xs) ys k = refl

  some_state :
      (cs : List (ClaimResult F))
      → All IsReasoned cs
      → any_in contradicting cs ≡ false
      → any_in invalid cs ≡ false
      → any_in unknown cs ≡ false
      → All (λ c. c.state ≡ affirming) cs
  some_state [] h a b d = tt
  some_state (c ∷ cs) (r, rs) a b d =
      (ground (arith, r.evaluated), some_state cs rs (ground arith) (ground arith) (ground arith))

  -- Where the mandatory claims are reasoned, a decision other than acceptance has reason codes, and
  -- acceptance has none.
  pub decide_reasons :
      (fatal : List String) (cs : List (ClaimResult F))
      → All IsReasoned cs
      → ((decide fatal cs).0 ≡ accept) ↔ (is_empty (decide fatal cs).1 ≡ true)
  unfolding decide
  decide_reasons fatal cs h = (
    ground arith,
    ground (
      arith,
      is_empty-sorted_set fatal,
      is_empty-sorted_set (codes_of contradicting cs),
      is_empty-sorted_set (codes_of invalid cs),
      is_empty-sorted_set (codes_of unknown cs),
      codes_of-nonempty contradicting cs (λ e. cc) h,
      codes_of-nonempty invalid cs (λ e. cc) h,
      codes_of-nonempty unknown cs (λ e. cc) h,
      λ (a : any_in contradicting cs ≡ false) (b : any_in invalid cs ≡ false)
            (d : any_in unknown cs ≡ false).
          affirm-all cs (some_state cs h a b d),
    ),
  )

  pub decide-IsStrictlySorted :
      (fatal : List String) (cs : List (ClaimResult F)) → IsStrictlySorted (decide fatal cs).1
  unfolding decide
  decide-IsStrictlySorted fatal cs = codes_ordered (
      either (not (is_empty fatal)) (ordered (sorted_set-IsStrictlySorted fatal)) (
        either (any_in contradicting cs) (ordered (sorted_set-IsStrictlySorted _)) (
          either (any_in invalid cs) (ordered (sorted_set-IsStrictlySorted _)) (
            either (any_in unknown cs) (ordered (sorted_set-IsStrictlySorted _)) (
              either (all (λ c. is_state c.state affirming) cs) (ordered tt) (ordered (tt, tt)))))))

pub add_integrity-IsStrictlySorted :
    (errors fatal codes : List String)
    → IsStrictlySorted codes
    → IsStrictlySorted (add_integrity errors fatal codes)
unfolding add_integrity
add_integrity-IsStrictlySorted errors fatal codes h =
    elim (Bool-cases (not (is_empty errors) && is_empty fatal)) [
      | inl e ↦ rw e (sorted_set-IsStrictlySorted (codes ++ errors))
      | inr e ↦ rw e h
    ]

-- No reasons and no fatal errors leave the integrity errors, in their order.
pub add_integrity-nil :
    (errors fatal : List String)
    → IsStrictlySorted errors
    → is_empty fatal ≡ true
    → add_integrity errors fatal [] ≡ errors
unfolding add_integrity
add_integrity-nil [] fatal h e = refl
add_integrity-nil (x ∷ errors) fatal h e = rw e (sorted_set-eq_of_sorted (x ∷ errors) h)

pub add_integrity-nonempty :
    (errors fatal codes : List String)
    → is_empty codes ≡ false
    → is_empty (add_integrity errors fatal codes) ≡ false
unfolding add_integrity
add_integrity-nonempty errors fatal [] h = cc
add_integrity-nonempty errors fatal (c ∷ codes) h =
    ground (arith, is_empty-sorted_set (c ∷ codes ++ errors))
