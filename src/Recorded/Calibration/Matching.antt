-- ===== src/Recorded/Calibration/Matching.antt =====
-- The calibration that `build_calibration` makes is valid, and matches the traces it was made of.
use mathlib.Core.Path.{subst}
use north_standard.Base.{
  ℕ, String, Bool, true, false, not, List, [], ◌∷◌, ◌≡◌, refl, sym, ◌∙◌, ap, arith, All, All-map,
  All-zip, length, Option, some, Result, ok, recorded_real_error, ◌>>=◌, >>=-eq-ok_then,
  ok-injective, raise_if, map_result, any_result, check_each, check_each→All, str_eq_iff,
  str_eq_refl, nonempty,
}
use north_standard.Value.{
  Float, Value, float, null, Fields, end, field, get, item, is_text, as_text, as_dict, dict_of,
}
use north_standard.Base.Int.{ℤ}
use north_standard.Canonical.{Hashing, canonical_sha256, canonical_json}
use north_standard.Authorization.Hex.{is_lower_hex_text}
use north_standard.Recorded.{Measure, required_string, positive_finite, is_positive_finite}
use north_standard.Recorded.Trace.{validate_trace, device_fingerprint, device_fingerprint_fields}
use north_standard.Recorded.Calibration.{
  text_at, same_key, calibration_of, samples_of, measured, created_or_latest, has_distinct,
  validate_calibration, ensure_trace_matches_calibration, compatible_trace_key, build_calibration,
}

-- `hexdigest` gives sixty-four lowercase hexadecimal digits.
abbrev pub IsLowerHexDigest : (F : Type 0) → Hashing F → Type 0
IsLowerHexDigest F hs = (s : String) → is_lower_hex_text 64 (hs.sha256_hex s) ≡ true

any_result-false→All {ℓ} :
    {A : Type ℓ} (p : A → Result Bool) (xs : List A)
    → any_result p xs ≡ ok false
    → All (λ x. p x ≡ ok false) xs
any_result-false→All p [] h = tt
any_result-false→All p (x ∷ xs) h =
    >>=-eq-ok_then (p x) _ false h
      (λ b e k. (ground (arith, e, k), any_result-false→All p xs (ground (arith, k))))

hex-nonempty : (s : String) → is_lower_hex_text 64 s ≡ true → nonempty s ≡ true
hex-nonempty String.[] h = cc
hex-nonempty (String.◌∷◌ c s) h = refl

module _ {F : Type 0} where
  as_text-is_text : (v : Value F) (s : String) → as_text v ≡ some s → is_text s v ≡ true
  as_text-is_text v s h = ground (arith, str_eq_refl s)

  text_at-is_text :
      (k : String) (d : Fields F) (s : String)
      → text_at k d ≡ ok s
      → is_text s (get k null d) ≡ true
  text_at-is_text k end s h = cc
  text_at-is_text k (field j v fs) s h = ground (arith, text_at-is_text k fs s, as_text-is_text v s)

module _ {F : Type 0} ⦃fl : Float F⦄ ⦃ms : Measure F⦄ where
  nonempty_text :
      (k : String) (d : Fields F) (s : String)
      → text_at k d ≡ ok s
      → (required_string d k >>= λ _. ok (tt {0})) ≡ ok tt
      → nonempty s ≡ true
  unfolding required_string
  nonempty_text k end s h e = cc
  nonempty_text k (field j v fs) s h e = ground (arith, nonempty_text k fs s, h, e)

  validate_trace-profiles :
      (trace : Fields F) (runtime benchmark : String)
      → validate_trace trace ≡ ok tt
      → text_at "runtime_profile_id" trace ≡ ok runtime
      → text_at "benchmark_profile_id" trace ≡ ok benchmark
      → (nonempty runtime ≡ true) × (nonempty benchmark ≡ true)
  unfolding validate_trace
  validate_trace-profiles trace r b h e₁ e₂ = (
    nonempty_text "runtime_profile_id" trace r e₁ (ground (arith, h)),
    nonempty_text "benchmark_profile_id" trace b e₂ (ground (arith, h)),
  )

-- What a calibration must hold to be valid.
pub record IsCalibration {F : Type 0} ⦃fl : Float F⦄ ⦃ms : Measure F⦄ (c : Fields F)
    (fingerprint runtime benchmark : String) : Type 0 where
  pub valid : validate_calibration c ≡ ok tt
  pub of_device : is_text fingerprint (get "device_fingerprint" null c) ≡ true
  pub of_runtime : text_at "runtime_profile_id" c ≡ ok runtime
  pub of_benchmark : text_at "benchmark_profile_id" c ≡ ok benchmark

module _ {F : Type 0} ⦃fl : Float F⦄ ⦃ms : Measure F⦄ ⦃hs : Hashing F⦄ where
  canonical_sha256-hex :
      (hex : IsLowerHexDigest F hs) (v : Value F) (s : String)
      → canonical_sha256 v ≡ ok s
      → is_lower_hex_text 64 s ≡ true
  unfolding canonical_sha256
  canonical_sha256-hex hex v s h =
      >>=-eq-ok_then (canonical_json v) _ s h
        (λ text _ e. subst (λ t. is_lower_hex_text 64 t ≡ true) (ok-injective _ _ e) (hex text))

  device_fingerprint-hex :
      (hex : IsLowerHexDigest F hs) (trace : Fields F) (s : String)
      → device_fingerprint trace ≡ ok s
      → is_lower_hex_text 64 s ≡ true
  unfolding device_fingerprint
  device_fingerprint-hex hex trace s h = >>=-eq-ok_then (validate_trace trace) _ s h (λ _ _ h₁.
      >>=-eq-ok_then (item "device" trace) _ s h₁ (λ v _ h₂.
        >>=-eq-ok_then (as_dict v) _ s h₂ (λ device _ h₃.
          >>=-eq-ok_then
            (map_result (λ field. item field device >>= λ v. ok (field, v))
              device_fingerprint_fields)
            _ s h₃ (λ identity _ h₄. canonical_sha256-hex hex (dict_of identity) s h₄))))

  compatible_parts :
      (trace : Fields F) (a b c : String)
      → compatible_trace_key trace ≡ ok (a, b, c)
      → (device_fingerprint trace ≡ ok a)
        × (text_at "runtime_profile_id" trace ≡ ok b)
        × (text_at "benchmark_profile_id" trace ≡ ok c)
  unfolding compatible_trace_key
  compatible_parts trace a b c h = ground (arith, h)

  trace_matches :
      (trace c : Fields F) (x y z : String)
      → validate_trace trace ≡ ok tt
      → compatible_trace_key trace ≡ ok (x, y, z)
      → IsCalibration c x y z
      → ensure_trace_matches_calibration trace c ≡ ok tt
  unfolding ensure_trace_matches_calibration
  trace_matches trace c x y z v k i =
      let (e₁, e₂, e₃) = compatible_parts trace x y z k in
      let t₂ = text_at-is_text "runtime_profile_id" trace y e₂ in
      let t₃ = text_at-is_text "benchmark_profile_id" trace z e₃ in
      rw (v, i.valid, e₁, i.of_device, i.of_runtime, t₂, i.of_benchmark, t₃) refl

  calibration_of-IsCalibration :
      (id : String) (created : ℤ) (x y z : String) (device : Fields F) (compute memory : F)
      (n m : ℕ) (ids : List String)
      → nonempty id ≡ true
      → is_lower_hex_text 64 x ≡ true
      → nonempty y ≡ true
      → nonempty z ≡ true
      → is_positive_finite compute ≡ true
      → is_positive_finite memory ≡ true
      → IsCalibration (calibration_of id created (x, y, z) device compute memory n m ids) x y z
  unfolding validate_calibration required_string positive_finite
  calibration_of-IsCalibration id created x y z device compute memory n m ids hi hx hy hz hc hm =
      record {
        valid = rw (hi, hex-nonempty x hx, hx, hy, hz, hc, hm) refl;
        of_device = str_eq_refl x;
        of_runtime = refl;
        of_benchmark = refl;
      }

  -- The references of the calibration, which are medians of positive finite numbers, are that, too.
  abbrev pub HasFiniteReferences : Fields F → Type 0
  HasFiniteReferences c =
      (x : F)
      → ((get "reference_compute_gflops" null c ≡ float x) → is_positive_finite x ≡ true)
        × ((get "reference_memory_gbps" null c ≡ float x) → is_positive_finite x ≡ true)

  -- The calibration is valid, and the traces match it.
  abbrev Matches : Fields F → List (Fields F) → Type 0
  Matches c traces =
      (validate_calibration c ≡ ok tt)
      × All (λ t. ensure_trace_matches_calibration t c ≡ ok tt) traces

  all_match :
      (c : Fields F) (traces : List (Fields F)) (x y z : String)
      → All (λ t. validate_trace t ≡ ok tt) traces
      → All (λ t. compatible_trace_key t ≡ ok (x, y, z)) traces
      → IsCalibration c x y z
      → All (λ t. ensure_trace_matches_calibration t c ≡ ok tt) traces
  all_match c traces x y z valid same i =
      All-map (λ t (v, k). trace_matches t c x y z v k i) traces (All-zip _ _ traces valid same)

  same_key-eq :
      (trace : Fields F) (x y z : String)
      → (compatible_trace_key trace >>= λ k. ok (not (same_key k (x, y, z)))) ≡ ok false
      → compatible_trace_key trace ≡ ok (x, y, z)
  same_key-eq trace x y z h =
      >>=-eq-ok_then (compatible_trace_key trace) _ false h (λ (a, b, c) e k.
        e
        ∙ ap ok (
            ap (λ p. (p, b, c)) ((str_eq_iff a x).0 (ground (arith, k)))
            ∙ ap (λ p. (x, p, c)) ((str_eq_iff b y).0 (ground (arith, k)))
            ∙ ap (λ p. (x, y, p)) ((str_eq_iff c z).0 (ground (arith, k)))))

  calibration_of-Matches :
      (hex : IsLowerHexDigest F hs) (first : Fields F) (others : List (Fields F)) (id : String)
      (x y z : String) (created : ℤ) (device : Fields F) (compute memory : F) (n m : ℕ)
      (ids : List String)
      → nonempty id ≡ true
      → All (λ t. validate_trace t ≡ ok tt) (first ∷ others)
      → compatible_trace_key first ≡ ok (x, y, z)
      → any_result
          (λ trace. compatible_trace_key trace >>= λ k. ok (not (same_key k (x, y, z))))
          others
        ≡ ok false
      → HasFiniteReferences (calibration_of id created (x, y, z) device compute memory n m ids)
      → Matches (calibration_of id created (x, y, z) device compute memory n m ids) (first ∷ others)
  calibration_of-Matches hex first others id x y z created device compute memory n m ids named valid
        key alike finite =
      let (e₁, e₂, e₃) = compatible_parts first x y z key in
      let (hy, hz) = validate_trace-profiles first y z valid.0 e₂ e₃ in
      let made =
        calibration_of-IsCalibration id created x y z device compute memory n m ids named
          (device_fingerprint-hex hex first x e₁) hy hz ((finite compute).0 refl)
          ((finite memory).1 refl) in
      let same =
        All-map (λ t e. same_key-eq t x y z e) others (any_result-false→All _ others alike) in
      (made.valid, all_match _ (first ∷ others) x y z valid (key, same) made)

  -- `build_calibration` makes a calibration that `validate_calibration` lets pass, and all traces that
  -- it was made of match it, where digests are sixty-four lowercase hexadecimal digits and the medians
  -- of the measurements are positive and finite.
  pub build_calibration_matches :
      (hex : IsLowerHexDigest F hs) (traces : List (Fields F)) (id : String) (created : Option ℤ)
      (c : Fields F)
      → build_calibration traces id created ≡ ok c
      → HasFiniteReferences c
      → (validate_calibration c ≡ ok tt)
        × All (λ t. ensure_trace_matches_calibration t c ≡ ok tt) traces
  unfolding build_calibration
  build_calibration_matches hex [] id created c h finite = cc
  build_calibration_matches hex (first ∷ others) id created c h finite =
      let traces = first ∷ others in
      >>=-eq-ok_then
        (raise_if (not (nonempty id)) (recorded_real_error "calibration_id is required")) _ c h
        (λ _ named h₁. >>=-eq-ok_then (check_each validate_trace traces) _ c h₁ (λ _ checked h₂.
          >>=-eq-ok_then (compatible_trace_key first) _ c h₂ (λ (x, y, z) key h₃.
            >>=-eq-ok_then
              (any_result
                (λ trace. compatible_trace_key trace >>= λ k. ok (not (same_key k (x, y, z))))
                others)
              _ c h₃
              (λ differ compared h₄.
                >>=-eq-ok_then
                  (raise_if differ (
                    recorded_real_error
                      "all calibration traces must share device, runtime profile, and benchmark profile"))
                  _ c h₄
                  (λ _ alike h₅. >>=-eq-ok_then (samples_of traces) _ c h₅ (λ samples _ h₆.
                    >>=-eq-ok_then (measured "compute_gflops" "sample.compute_gflops" samples) _ c
                      h₆
                      (λ by_compute _ h₇.
                        >>=-eq-ok_then (measured "memory_gbps" "sample.memory_gbps" samples) _ c h₇
                          (λ by_memory _ h₈.
                            >>=-eq-ok_then (map_result (text_at "capture_id") traces) _ c h₈
                              (λ sources _ h₉.
                                >>=-eq-ok_then
                                  (raise_if (not (has_distinct (length sources) sources)) (
                                    recorded_real_error
                                      "calibration capture_id values must be unique"))
                                  _ c h₉
                                  (λ _ _ g₁.
                                    >>=-eq-ok_then (created_or_latest created traces) _ c g₁
                                      (λ at_ _ g₂.
                                        >>=-eq-ok_then (item "device" first) _ c g₂ (λ v _ g₃.
                                          >>=-eq-ok_then (as_dict v) _ c g₃ (λ device _ g₄.
                                            let made = ok-injective _ _ g₄ in
                                            subst (λ c. Matches c traces) made
                                              (calibration_of-Matches hex first others id x y z at_
                                                device (ms.median by_compute) (ms.median by_memory)
                                                (length traces) (length by_compute) sources
                                                (ground (arith, named))
                                                (check_each→All validate_trace traces checked) key
                                                (compared ∙ ap ok (ground (arith, alike)))
                                                (subst HasFiniteReferences (sym made)
                                                  finite)))))))))))))))
