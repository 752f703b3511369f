-- ===== src/Commitment/Binding.antt =====
-- What the settlement payload binds, and what it leaves out.
use mathlib.Core.Option.{some-injective}
use north_standard.Base.{String, List, [], ◌∷◌, map, ◌≡◌, refl, ap, false, Option, some, ◌∙◌, sym}
use north_standard.Base.Codes.{sort_items, map-sort_items, on_value}
use north_standard.Value.{
  Value, Fields, Items, null, str, dict, list, end, field, nil, cons, get, texts, fields_of,
}
use north_standard.Models.{ClaimResult, VerifierResult, ClaimState}
use north_standard.Models.Reading.{
  decision_of, decision_of-decision_value, state_of, state_of-state_value,
}
use north_standard.Commitment.{settlement_payload, claim_payload, claim_entry}

module _ {F : Type 0} where
  -- A claim without its references, its metrics and its own copy of the identifier.
  abbrev pub bare_claim : ClaimResult F → ClaimResult F
  bare_claim c = record c { claim_id = ""; evidence_refs = []; metrics = end }

  -- A verdict without the diagnostics: bare claims, and no build identifier, research flag or version.
  abbrev pub bare : VerifierResult F → VerifierResult F
  bare r = record r {
    schema_version = "";
    claims = map (λ (k, c). (k, bare_claim c)) r.claims;
    verifier_build_id = "";
    research_mode = false;
  }

  entries_bare :
      (es : List (String × ClaimResult F))
      → map claim_entry (map (on_value bare_claim) es) ≡ map claim_entry es
  entries_bare [] = refl
  entries_bare (e ∷ es) = ap (λ rest. claim_entry e ∷ rest) (entries_bare es)

  -- The settlement payload is the same for a verdict and for the verdict without its diagnostics.
  pub settlement_payload-bare :
      (r : VerifierResult F) → settlement_payload (bare r) ≡ settlement_payload r
  unfolding settlement_payload
  settlement_payload-bare r =
      rw (← map-sort_items bare_claim r.claims, entries_bare (sort_items r.claims)) refl

  -- What a payload is read back to.
  abbrev text_of : Value F → String
  text_of (str s) = s
  text_of _ = ""

  abbrev fields_in : Value F → Fields F
  fields_in (dict fs) = fs
  fields_in _ = end

  abbrev texts_in_items : Items F → List String
  texts_in_items nil = []
  texts_in_items (cons v vs) = text_of v ∷ texts_in_items vs

  abbrev texts_in : Value F → List String
  texts_in (list vs) = texts_in_items vs
  texts_in _ = []

  abbrev entries_in : Fields F → List (String × Value F)
  entries_in end = []
  entries_in (field k v fs) = (k, v) ∷ entries_in fs

abbrev seen : ClaimState × List String → Option ClaimState × List String
seen (s, codes) = (some s, codes)

seen-injective : (a b : ClaimState × List String) → seen a ≡ seen b → a ≡ b
seen-injective (s, xs) (t, ys) h = λ i. (some-injective s t (λ j. (h j).0) i, (h i).1)

module _ (F : Type 0) where
  texts_in-texts : (ss : List String) → texts_in {F = F} (texts ss) ≡ ss
  texts_in-texts [] = refl
  texts_in-texts (s ∷ ss) = ap (λ rest. s ∷ rest) (texts_in-texts ss)

module _ {F : Type 0} where
  -- what a claim's payload says of it
  abbrev pub semantic : ClaimResult F → ClaimState × List String
  semantic c = (c.state, c.reason_codes)

  abbrev read_claim : Value F → Option ClaimState × List String
  read_claim v = (
    state_of (text_of (get "state" null (fields_in v))),
    texts_in (get "reason_codes" null (fields_in v)),
  )

  read_claim-payload : (c : ClaimResult F) → read_claim (claim_payload c) ≡ seen (semantic c)
  read_claim-payload c = λ i. (state_of-state_value c.state i, texts_in-texts F c.reason_codes i)

  -- the claims of a verdict in the order of their identifiers, as far as they are committed to
  abbrev pub semantics : VerifierResult F → List (String × (ClaimState × List String))
  semantics r = map (on_value semantic) (sort_items r.claims)

  claims_read :
      (es fs : List (String × ClaimResult F))
      → fields_of (map claim_entry es) ≡ fields_of (map claim_entry fs)
      → map (on_value semantic) es ≡ map (on_value semantic) fs
  claims_read [] [] h = refl
  claims_read [] (f ∷ fs) h = cc
  claims_read (e ∷ es) [] h = cc
  claims_read ((k, c) ∷ es) ((j, d) ∷ fs) h =
      let same_key : k ≡ j = cc in
      let same_value : claim_payload c ≡ claim_payload d = cc in
      let same_rest : fields_of (map claim_entry es) ≡ fields_of (map claim_entry fs) = cc in
      let same_claim : semantic c ≡ semantic d =
        seen-injective _ _
          (sym (read_claim-payload c) ∙ ap read_claim same_value ∙ read_claim-payload d) in
      let rest = claims_read es fs same_rest in λ i. (same_key i, same_claim i) ∷ rest i

  -- What two verdicts agree on that have the same semantic content.
  pub record SameOutcome (r s : VerifierResult F) : Type 0 where
    pub same_contract : r.contract_id ≡ s.contract_id
    pub same_session : r.session_id ≡ s.session_id
    pub same_policy : r.verifier_policy_id ≡ s.verifier_policy_id
    pub same_root : r.evidence_bundle_root ≡ s.evidence_bundle_root
    pub same_decision : r.decision ≡ s.decision
    pub same_codes : r.reason_codes ≡ s.reason_codes
    pub same_claims : semantics r ≡ semantics s

  abbrev at : String → Value F → Value F
  at k v = get k null (fields_in v)

  -- Two verdicts with equal settlement payloads agree on the contract, the session, the policy, the
  -- evidence root, the decision, the reason codes, and the state and reason codes of every claim in
  -- the order of the claims' identifiers.
  pub settlement_payload_binds :
      (r s : VerifierResult F) → settlement_payload r ≡ settlement_payload s → SameOutcome r s
  unfolding settlement_payload
  settlement_payload_binds r s h = record {
    same_contract = ap (λ v. text_of (at "contract_id" v)) h;
    same_session = ap (λ v. text_of (at "session_id" v)) h;
    same_policy = ap (λ v. text_of (at "verifier_policy_id" v)) h;
    same_root = ap (λ v. text_of (at "evidence_bundle_root" v)) h;
    same_decision = some-injective r.decision s.decision (
        sym (decision_of-decision_value r.decision)
        ∙ ap (λ v. decision_of (text_of (at "decision" (at "overall" v)))) h
        ∙ decision_of-decision_value s.decision);
    same_codes =
        sym (texts_in-texts F r.reason_codes)
        ∙ ap (λ v. texts_in (at "reason_codes" (at "overall" v))) h
        ∙ texts_in-texts F s.reason_codes;
    same_claims =
        claims_read (sort_items r.claims) (sort_items s.claims)
          (ap (λ v. fields_in (at "claims" v)) h);
  }
