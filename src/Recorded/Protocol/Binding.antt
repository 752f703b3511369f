-- ===== src/Recorded/Protocol/Binding.antt =====
-- A calibration that was bound to the challenge of its traces passes the check of the binding.
use Prim.Native.String.{count}
use mathlib.Core.Path.{subst}
use north_standard.Base.{
  String, Bool, true, false, not, List, [], ◌∷◌, ◌≡◌, refl, sym, ◌∙◌, ap, arith, All, All-map,
  length, filter, is_empty, Result, ok, recorded_real_error, >>=-eq-ok_then, ok-injective, raise_if,
  map_result, check_each, str_eq, str_eq_iff, str_eq_refl, Bool-cases, inl, inr,
  filter-not-empty→All,
}
use north_standard.Value.{
  Float, Value, str, null, dict, Fields, end, field, put, get, item, as_dict, fields_of,
}
use north_standard.Canonical.{Hashing, canonical_sha256, canonical_json}
use north_standard.Verifier.Binding.{distinct}
use north_standard.Recorded.{Measure, required_string}
use north_standard.Recorded.Trace.{validate_trace}
use north_standard.Recorded.Calibration.{validate_calibration, has_distinct}
use north_standard.Recorded.Contract.{first_of}
use north_standard.Recorded.Protocol.{
  Whole, matches_challenge, to_int, profile_entry, normalized_profile, challenge_profile_fields,
  challenge_profile, challenge_fingerprint, bind_calibration_to_challenge,
  validate_challenge_binding,
}

module _ {F : Type 0} where
  get-put : (k : String) (v : Value F) (d : Fields F) → get k null (put k v d) ≡ v
  get-put k v end = ground (arith, str_eq_refl k)
  get-put k v (field j w fs) = ground (arith, str_eq_refl k, get-put k v fs)

  get-put_other :
      (k j : String) (v : Value F) (d : Fields F)
      → str_eq k j ≡ false
      → get k null (put j v d) ≡ get k null d
  get-put_other k j v end h = ground (arith, h)
  get-put_other k j v (field i w fs) h = elim (Bool-cases (str_eq j i)) [
    | inl e ↦
        let same = (str_eq_iff j i).0 e in
        ground (arith, e, h, str_eq_iff k i, str_eq_iff k j, str_eq_refl j, same)
    | inr e ↦ ground (arith, e, get-put_other k j v fs h)
  ]

  required_string-put :
      (k : String) (d c : Fields F)
      → get k null d ≡ get k null c
      → required_string d k ≡ required_string c k
  unfolding required_string
  required_string-put k d c h = rw (required_string, h) refl

All-unfilter {ℓ κ} :
    {A : Type ℓ} (Q : A → Type κ) (p : A → Bool) (xs : List A)
    → ((x : A) → p x ≡ false → Q x)
    → All Q (filter p xs)
    → All Q xs
All-unfilter Q p [] f h = tt
All-unfilter Q p (x ∷ xs) f h = elim (Bool-cases (p x)) [
  | inl e ↦ let (q, qs) : Q x × All Q (filter p xs) = rw e at h in (q, All-unfilter Q p xs f qs)
  | inr e ↦ let qs : All Q (filter p xs) = rw e at h in (f x e, All-unfilter Q p xs f qs)
]

-- One distinct text is all the texts.
All-distinct :
    (x : String) (ys : List String) → All (λ y. x ≡ y) (distinct ys) → All (λ y. x ≡ y) ys
All-distinct x [] h = tt
All-distinct x (y ∷ ys) (e, h) = (
  e,
  All-distinct x ys (
      All-unfilter (λ z. x ≡ z) (λ z. not (str_eq y z)) (distinct ys)
        (λ z k. e ∙ (str_eq_iff y z).0 (ground (arith, k))) h),
)

has_distinct-one :
    (xs : List String) (x : String)
    → has_distinct 1 xs ≡ true
    → first_of xs ≡ ok x
    → All (λ y. x ≡ y) xs
has_distinct-one [] x h e = cc
has_distinct-one (y ∷ ys) x h e =
    let same : y ≡ x = ok-injective _ _ e in
    let none_ : is_empty (filter (λ z. not (str_eq y z)) (distinct ys)) ≡ true =
      empty_of_length _ (ground (arith, h)) in
    subst (λ w. All (λ z. w ≡ z) (y ∷ ys)) same
      (
        refl,
        All-distinct y ys (
            All-map (λ z k. (str_eq_iff y z).0 k) (distinct ys)
              (filter-not-empty→All (str_eq y) (distinct ys) none_)),
      )
  where
    empty_of_length : (zs : List String) → length zs ≡ 0 → is_empty zs ≡ true
    empty_of_length [] h = refl
    empty_of_length (z ∷ zs) h = absurd (omega (arith, h))

map_result-same {ℓ κ} :
    {A : Type ℓ} {B : Type κ} (f : A → Result B) (y : B) (xs : List A) (ys : List B)
    → map_result f xs ≡ ok ys
    → All (λ z. y ≡ z) ys
    → All (λ x. f x ≡ ok y) xs
map_result-same f y [] ys h e = tt
map_result-same {B = B} f y (x ∷ xs) ys h e = >>=-eq-ok_then (f x) _ ys h (λ z k h₁.
    >>=-eq-ok_then (map_result f xs) _ ys h₁ (λ zs k₁ h₂.
      let (one, rest) : (y ≡ z) × All (λ w. y ≡ w) zs =
        subst (All (λ w. y ≡ w)) (sym (ok-injective _ _ h₂)) e in
      (k ∙ ap ok (sym one), map_result-same f y xs zs k₁ rest)))

-- `hexdigest` gives sixty-four characters.
abbrev pub IsLongDigest : (F : Type 0) → Hashing F → Type 0
IsLongDigest F hs = (s : String) → count (hs.sha256_hex s) ≡ 64

module _ {F : Type 0} ⦃fl : Float F⦄ ⦃ms : Measure F⦄ where
  -- the two keys that the binding sets
  validate_calibration-put :
      (v w : Value F) (c : Fields F)
      → validate_calibration (put "challenge_profile" v (put "challenge_fingerprint" w c))
        ≡ validate_calibration c
  unfolding validate_calibration
  validate_calibration-put v w c =
      let inner = λ (k : String) (h : str_eq k "challenge_fingerprint" ≡ false).
        get-put_other k "challenge_fingerprint" w c h in
      let kept =
        λ (k : String) (h : str_eq k "challenge_profile" ≡ false)
            (g : str_eq k "challenge_fingerprint" ≡ false).
          get-put_other k "challenge_profile" v (put "challenge_fingerprint" w c) h ∙ inner k g in
      rw
        (
          kept "schema_version" refl refl,
          kept "provenance" refl refl,
          kept "status" refl refl,
          required_string-put "calibration_id" _ c (kept "calibration_id" refl refl),
          required_string-put "device_fingerprint" _ c (kept "device_fingerprint" refl refl),
          required_string-put "runtime_profile_id" _ c (kept "runtime_profile_id" refl refl),
          required_string-put "benchmark_profile_id" _ c (kept "benchmark_profile_id" refl refl),
          kept "reference_compute_gflops" refl refl,
          kept "reference_memory_gbps" refl refl,
        )
        refl

module _ {F : Type 0} ⦃fl : Float F⦄ ⦃ms : Measure F⦄ ⦃ws : Whole F⦄ where
  challenge_profile-normalized :
      (trace profile : Fields F)
      → challenge_profile trace ≡ ok profile
      → normalized_profile profile ≡ profile
  unfolding challenge_profile
  challenge_profile-normalized trace profile h =
      >>=-eq-ok_then (validate_trace trace) _ profile h (λ _ _ h₁.
        >>=-eq-ok_then (item "challenge" trace) _ profile h₁ (λ v _ h₂.
          >>=-eq-ok_then (as_dict v) _ profile h₂ (λ challenge _ h₃.
            >>=-eq-ok_then (map_result (profile_entry challenge) challenge_profile_fields) _ profile
              h₃
              (λ values e h₄.
                subst (λ p. normalized_profile p ≡ p) (ok-injective _ _ h₄)
                  (entries challenge values e)))))
    where
      named :
          (challenge : Fields F) (k : String) (e : String × Value F)
          → profile_entry challenge k ≡ ok e
          → e.0 ≡ k
      named challenge k e h = >>=-eq-ok_then (item k challenge) _ e h (λ v _ h₁.
          >>=-eq-ok_then (to_int v) _ e h₁
            (λ n _ h₂. ap (λ (x : String × Value F). x.0) (sym (ok-injective _ _ h₂))))

      three :
          (a b c : String) (x y z : Value F)
          → a ≡ "elements"
          → b ≡ "compute_inner_iterations"
          → c ≡ "warmup_iterations"
          → normalized_profile (fields_of ((a, x) ∷ (b, y) ∷ (c, z) ∷ []))
            ≡ fields_of ((a, x) ∷ (b, y) ∷ (c, z) ∷ [])
      three a b c x y z p q r = rw (p, q, r) refl

      entries :
          (challenge : Fields F) (values : List (String × Value F))
          → map_result (profile_entry challenge) challenge_profile_fields ≡ ok values
          → normalized_profile (fields_of values) ≡ fields_of values
      entries challenge values h =
          >>=-eq-ok_then (profile_entry challenge "elements") _ values h (λ (a, x) e₁ h₁.
            >>=-eq-ok_then
              (map_result (profile_entry challenge)
                ("compute_inner_iterations" ∷ "warmup_iterations" ∷ []))
              _ values h₁
              (λ rest e₂ h₂.
                >>=-eq-ok_then (profile_entry challenge "compute_inner_iterations") _ rest e₂
                  (λ (b, y) e₃ h₃.
                    >>=-eq-ok_then (map_result (profile_entry challenge) ("warmup_iterations" ∷ []))
                      _ rest h₃
                      (λ last e₄ h₄.
                        >>=-eq-ok_then (profile_entry challenge "warmup_iterations") _ last e₄
                          (λ (c, z) e₅ h₅.
                            let is_last = ok-injective ((c, z) ∷ []) last h₅ in
                            let is_rest =
                              ap (λ (l : List (String × Value F)). (b, y) ∷ l) is_last
                              ∙ ok-injective _ rest h₄ in
                            let is_all =
                              ap (λ (l : List (String × Value F)). (a, x) ∷ l) is_rest
                              ∙ ok-injective _ values h₂ in
                            subst (λ l. normalized_profile (fields_of l) ≡ fields_of l) is_all
                              (three a b c x y z (named challenge _ _ e₁) (named challenge _ _ e₃)
                                (named challenge _ _ e₅)))))))

module _ {F : Type 0} ⦃fl : Float F⦄ ⦃ms : Measure F⦄ ⦃ws : Whole F⦄ ⦃hs : Hashing F⦄ where
  canonical_sha256-count :
      (long : IsLongDigest F hs) (v : Value F) (s : String)
      → canonical_sha256 v ≡ ok s
      → count s ≡ 64
  unfolding canonical_sha256
  canonical_sha256-count long v s h =
      >>=-eq-ok_then (canonical_json v) _ s h
        (λ text _ e. subst (λ t. count t ≡ 64) (ok-injective _ _ e) (long text))

  all_validate :
      (s : String) (traces : List (Fields F))
      → All (λ t. challenge_fingerprint t ≡ ok s) traces
      → check_each (matches_challenge s) traces ≡ ok tt
  all_validate s [] h = refl
  all_validate s (t ∷ ts) (e, h) = rw (e, str_eq_refl s) (all_validate s ts h)

  -- the calibration that the binding returns, with what went into it
  bound_validates :
      (long : IsLongDigest F hs) (calibration profile : Fields F) (s : String) (first : Fields F)
      (others : List (Fields F))
      → validate_calibration calibration ≡ ok tt
      → challenge_profile first ≡ ok profile
      → All (λ t. challenge_fingerprint t ≡ ok s) (first ∷ others)
      → validate_challenge_binding
          (put "challenge_profile" (dict profile) (put "challenge_fingerprint" (str s) calibration))
          (first ∷ others)
        ≡ ok tt
  unfolding validate_challenge_binding challenge_fingerprint
  bound_validates long calibration profile s first others valid made same =
      let hashed : canonical_sha256 (dict profile) ≡ ok s = rw made at same.0 in
      let n = canonical_sha256-count long (dict profile) s hashed in
      let c = put "challenge_fingerprint" (str s) calibration in
      rw
        (
          validate_calibration-put (dict profile) (str s) calibration,
          valid,
          get-put_other "challenge_fingerprint" "challenge_profile" (dict profile) c refl,
          get-put "challenge_fingerprint" (str s) calibration,
          get-put "challenge_profile" (dict profile) c,
          n,
          challenge_profile-normalized first profile made,
          hashed,
          str_eq_refl s,
        )
        (all_validate s (first ∷ others) same)

  -- A calibration that `bind_calibration_to_challenge` returns for some traces passes
  -- `validate_challenge_binding` for the same traces, where digests have sixty-four characters.
  pub bind_validates :
      (long : IsLongDigest F hs) (calibration : Fields F) (traces : List (Fields F))
      (bound : Fields F)
      → bind_calibration_to_challenge calibration traces ≡ ok bound
      → validate_challenge_binding bound traces ≡ ok tt
  unfolding bind_calibration_to_challenge
  bind_validates long calibration [] bound h =
      >>=-eq-ok_then (validate_calibration calibration) _ bound h (λ _ _ h₁. cc)
  bind_validates long calibration (first ∷ others) bound h =
      >>=-eq-ok_then (validate_calibration calibration) _ bound h (λ _ valid h₁.
        >>=-eq-ok_then (map_result challenge_fingerprint (first ∷ others)) _ bound h₁
          (λ prints made h₂.
            >>=-eq-ok_then
              (raise_if (not (has_distinct 1 prints))
                (recorded_real_error "calibration traces use different challenge configurations"))
              _ bound h₂
              (λ _ one h₃. >>=-eq-ok_then (challenge_profile first) _ bound h₃ (λ profile shaped h₄.
                >>=-eq-ok_then (first_of prints) _ bound h₄ (λ s chosen h₅.
                  subst (λ c. validate_challenge_binding c (first ∷ others) ≡ ok tt)
                    (ok-injective _ _ h₅)
                    (bound_validates long calibration profile s first others valid shaped (
                      map_result-same challenge_fingerprint s (first ∷ others) prints made
                        (has_distinct-one prints s (ground (arith, one)) chosen))))))))
