-- ===== src/Recorded/Trace/Samples.antt =====
-- When `validate_trace` lets the samples of a trace pass.
use Prim.Native.String.{◌++◌ as str_append}
use north_standard.Base.{
  false, any, List, [], ◌∷◌, ◌≡◌, ◌≢◌, ◌↔◌, refl, arith, ok, ◌>>=◌, All, All-map, All-zip,
  >>=-eq-ok, check_each,
}
use north_standard.Base.Int.{ℤ, pos, negsuc, ◌≤ℤ◌, eq_ℤ, eq_ℤ_iff}
use north_standard.Value.{Float, Value, null, dict, integer, Fields, get}
use north_standard.Recorded.{Measure, required_int, positive_finite}
use north_standard.Recorded.Trace.{check_sample, check_samples, measurement_fields}

module _ {F : Type 0} ⦃fl : Float F⦄ ⦃ms : Measure F⦄ where
  -- The value is a sample with this index and this time, and four positive finite measurements.
  pub record IsSample (v : Value F) (i t : ℤ) : Type 0 where
    pub fields : Fields F
    pub is_dict : v ≡ dict fields
    pub index : get "sample_index" null fields ≡ integer i
    pub index_bound : pos 0 ≤ℤ i
    pub observed : get "observed_at_unix_ms" null fields ≡ integer t
    pub observed_bound : pos 0 ≤ℤ t
    pub measured :
        check_each
          (λ field.
            positive_finite (get field null fields) (str_append "sample." field) >>= λ _. ok tt)
          measurement_fields
        ≡ ok tt

  check_sample_iff :
      (seen : List ℤ) (previous : ℤ) (v : Value F) (i t : ℤ)
      → (check_sample seen previous v ≡ ok (i, t))
        ↔ (IsSample v i t × (any (eq_ℤ i) seen ≡ false) × (previous ≤ℤ t))
  unfolding check_sample required_int
  check_sample_iff seen previous (dict fs) i t = (
    λ h. (
      record {
        fields = fs;
        is_dict = refl;
        index = ground (arith, h);
        index_bound = ground arith;
        observed = ground arith;
        observed_bound = ground arith;
        measured = ground arith;
      },
      ground arith,
      ground arith,
    ),
    λ (s, new, later). ground arith,
  )
  check_sample_iff seen previous v i t =
      (λ h. absurd (ground arith), λ (s, new, later). absurd (ground (arith, s.is_dict)))

  -- The values are samples with these indices and times.
  abbrev pub AreSamples : List (Value F) → List (ℤ × ℤ) → Type 0
  AreSamples [] [] = Unit
  AreSamples [] (_ ∷ _) = ⊥
  AreSamples (_ ∷ _) [] = ⊥
  AreSamples (v ∷ vs) ((i, t) ∷ rs) = IsSample v i t × AreSamples vs rs

-- No index stands twice.
abbrev pub HasDistinctIndices : List (ℤ × ℤ) → Type 0
HasDistinctIndices [] = Unit
HasDistinctIndices ((i, t) ∷ rs) = All (λ r. i ≢ r.0) rs × HasDistinctIndices rs

-- No time is earlier than one before it.
abbrev pub HasRisingTimes : List (ℤ × ℤ) → Type 0
HasRisingTimes [] = Unit
HasRisingTimes ((i, t) ∷ rs) = All (λ r. t ≤ℤ r.1) rs × HasRisingTimes rs

unseen_iff :
    (i j : ℤ) (seen : List ℤ)
    → (any (eq_ℤ j) (i ∷ seen) ≡ false) ↔ ((i ≢ j) × (any (eq_ℤ j) seen ≡ false))
unseen_iff i j seen = ground (arith, eq_ℤ_iff j i)

module _ {F : Type 0} ⦃fl : Float F⦄ ⦃ms : Measure F⦄ where
  check_samples-returns :
      (seen : List ℤ) (previous : ℤ) (vs : List (Value F))
      → check_samples seen previous vs ≡ ok tt
      → (rs : List (ℤ × ℤ)) × AreSamples vs rs
        × All (λ r. (any (eq_ℤ r.0) seen ≡ false) × (previous ≤ℤ r.1)) rs
        × HasDistinctIndices rs
        × HasRisingTimes rs
  unfolding check_samples
  check_samples-returns seen previous [] h = ([], tt, tt, tt, tt)
  check_samples-returns seen previous (v ∷ vs) h =
      let ((i, t), e, h') = >>=-eq-ok (check_sample seen previous v) _ h in
      let (sample, new, later) = (check_sample_iff seen previous v i t).0 e in
      let (rs, samples, bounded, distinct, rising) = check_samples-returns (i ∷ seen) t vs h' in
      (
        (i, t) ∷ rs,
        (sample, samples),
        (
          (new, later),
          All-map (λ r b. (((unseen_iff i r.0 seen).0 b.0).1, omega (arith, later, b.1))) rs
              bounded,
        ),
        (All-map (λ r b. ((unseen_iff i r.0 seen).0 b.0).0) rs bounded, distinct),
        (All-map (λ r b. b.1) rs bounded, rising),
      )

  returns-check_samples :
      (seen : List ℤ) (previous : ℤ) (vs : List (Value F)) (rs : List (ℤ × ℤ))
      → AreSamples vs rs
      → All (λ r. (any (eq_ℤ r.0) seen ≡ false) × (previous ≤ℤ r.1)) rs
      → HasDistinctIndices rs
      → HasRisingTimes rs
      → check_samples seen previous vs ≡ ok tt
  unfolding check_samples
  returns-check_samples seen previous [] rs a b d r = refl
  returns-check_samples seen previous (v ∷ vs) [] a b d r = elim a [ ]
  returns-check_samples seen previous (v ∷ vs) ((i, t) ∷ rs) (a, as_) (b, bs) (d, ds) (r, rises) =
      let step = (check_sample_iff seen previous v i t).1 (a, b.0, b.1) in
      rw step (
        returns-check_samples (i ∷ seen) t vs rs as_
          (All-map (λ s (old, (apart, after)). ((unseen_iff i s.0 seen).1 (apart, old.0), after)) rs
            (All-zip _ _ rs bs (All-zip _ _ rs d r)))
          ds rises)

  -- `validate_trace` lets the samples of a trace pass exactly when each is an object with an index and
  -- a time that are not negative and four positive finite measurements, no index stands twice and no
  -- time is earlier than one before it.
  pub check_samples_iff :
      (vs : List (Value F))
      → (check_samples [] (negsuc 0) vs ≡ ok tt)
        ↔ ((rs : List (ℤ × ℤ)) × AreSamples vs rs × HasDistinctIndices rs × HasRisingTimes rs)
  check_samples_iff vs = (
    λ h.
        let (rs, samples, _, distinct, rising) = check_samples-returns [] (negsuc 0) vs h in
        (rs, samples, distinct, rising),
    λ (rs, samples, distinct, rising).
        returns-check_samples [] (negsuc 0) vs rs samples (bounded vs rs samples) distinct rising,
  )
    where
      bounded :
          (vs : List (Value F)) (rs : List (ℤ × ℤ))
          → AreSamples vs rs
          → All (λ r. (any (eq_ℤ r.0) [] ≡ false) × (negsuc 0 ≤ℤ r.1)) rs
      bounded vs [] a = tt
      bounded [] (r ∷ rs) a = elim a [ ]
      bounded (v ∷ vs) ((i, t) ∷ rs) (a, as_) =
          ((refl, omega (arith, a.observed_bound)), bounded vs rs as_)
