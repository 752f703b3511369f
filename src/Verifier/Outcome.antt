-- ===== src/Verifier/Outcome.antt =====
-- src/north_standard/verifier.py: how `verify` draws a decision from the claims.
pub mod Deciding
pub mod Worst
use north_standard.Base.{
  String, Bool, List, [], ◌∷◌, ◌++◌, filter, any, all, concat_map, is_empty, contains, not, ◌&&◌,
  Option, none, some, str_eq, if◌then◌else◌,
}
use north_standard.Base.Codes.{sorted_set}
use north_standard.Models.{
  ClaimResult, ClaimState, affirming, contradicting, unknown, invalid, is_state, Decision, accept,
  reject, inconclusive,
}

-- the set literal that `verify` intersects with the integrity errors
abbrev pub fatal_codes : List String
fatal_codes = "DUPLICATE_EVIDENCE_ID" ∷ "DUPLICATE_SEQUENCE_NUMBER" ∷ []

-- `fatal_integrity`
abbrev pub fatal_integrity : List String → List String
fatal_integrity errors = filter (λ code. contains code errors) fatal_codes

module _ {F : Type 0} where
  -- `claims.get(claim_id)`
  abbrev pub find_claim : String → List (String × ClaimResult F) → Option (ClaimResult F)
  find_claim k [] = none
  find_claim k ((j, c) ∷ claims) = if str_eq k j then some c else find_claim k claims

  -- `[claims[claim_id] for claim_id in ids if claim_id in claims]`
  abbrev pub select_claims : List String → List (String × ClaimResult F) → List (ClaimResult F)
  select_claims [] claims = []
  select_claims (k ∷ ids) claims = elim (find_claim k claims) [
    | none ↦ select_claims ids claims
    | some c ↦ c ∷ select_claims ids claims
  ]

  -- `any(result.state == s for result in mandatory)`
  abbrev pub any_in : ClaimState → List (ClaimResult F) → Bool
  any_in s = any λ c. is_state c.state s

  -- `sorted({code for result in mandatory if result.state == s for code in result.reason_codes})`
  abbrev pub codes_in : ClaimState → List (ClaimResult F) → List String
  codes_in s mandatory =
      sorted_set (concat_map (λ c. c.reason_codes) (filter (λ c. is_state c.state s) mandatory))

  -- the chain of tests on the mandatory claims
  unfoldable pub decide : List String → List (ClaimResult F) → Decision × List String
  decide fatal mandatory =
      if not (is_empty fatal)
      then (reject, sorted_set fatal)
      else if any_in contradicting mandatory
      then (reject, codes_in contradicting mandatory)
      else if any_in invalid mandatory
      then (reject, codes_in invalid mandatory)
      else if any_in unknown mandatory
      then (inconclusive, codes_in unknown mandatory)
      else if all (λ c. is_state c.state affirming) mandatory
      then (accept, [])
      else (inconclusive, "UNRESOLVED_MANDATORY_CLAIM_STATE" ∷ [])

-- the integrity errors that are not fatal are added to the reasons
unfoldable pub add_integrity : (errors fatal codes : List String) → List String
add_integrity errors fatal codes =
    if not (is_empty errors) && is_empty fatal then sorted_set (codes ++ errors) else codes
