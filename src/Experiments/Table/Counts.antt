-- ===== src/Experiments/Table/Counts.antt =====
-- What the summary says of a run of all cases.
use north_standard.Base.{
  ℕ, zero, suc, ◌+◌, ◌*◌, ◌≤◌, Bool, true, false, ◌&&◌, ◌||◌, List, [], ◌∷◌, ◌++◌, filter, length,
  length-append, ◌≡◌, some, refl, ◌∙◌, arith, All, All-append, All-map, ok, str_eq, if◌then◌else◌,
  Bool-cases, inl, inr,
}
use north_standard.Base.Int.{ℤ, pos}
use north_standard.Value.{Float}
use north_standard.Canonical.{Hashing}
use north_standard.Models.{accept, reject, inconclusive, is_decision}
use north_standard.Experiments.{
  Noise, compliant, breach, is_truth, SyntheticCase, healthy_variance, marginal_healthy,
  mild_throttle, severe_throttle, replayed_evidence, buyer_network_failure, provider_outage,
  telemetry_gap,
}
use north_standard.Experiments.Table.{
  IsTrialOf, truth_of, IsTable, no_case, one_case, run_matrix-IsTable, run_matrix-positive,
}
use north_standard.Experiments.Plain.{ScoresPass}
use north_standard.Experiments.Summary.{Summary, summarize, rate, of_truth}
use north_standard.Experiments.Trials.{TrialRecord, run_matrix}

-- how many of the trials a test selects
abbrev count : (TrialRecord → Bool) → List TrialRecord → ℕ
count p ts = length (filter p ts)

-- as many for each case that a test selects
abbrev per_case : ℕ → (SyntheticCase → Bool) → List SyntheticCase → ℕ
per_case m w [] = 0
per_case m w (c ∷ cs) = if w c then m + per_case m w cs else per_case m w cs

count-append :
    (p : TrialRecord → Bool) (ts us : List TrialRecord)
    → count p (ts ++ us) ≡ count p ts + count p us
count-append p [] us = omega arith
count-append p (t ∷ ts) us = ground (arith, count-append p ts us)

count_all :
    (p : TrialRecord → Bool) (ts : List TrialRecord)
    → All (λ t. p t ≡ true) ts
    → count p ts ≡ length ts
count_all p [] h = refl
count_all p (t ∷ ts) (e, h) = ground (arith, e, count_all p ts h)

-- A test that every trial of the selected cases passes.
per_case-le :
    (m : ℕ) (p : TrialRecord → Bool) (w : SyntheticCase → Bool)
    → ((c : SyntheticCase) (t : TrialRecord) → IsTrialOf c t → w c ≡ true → p t ≡ true)
    → {cs : List SyntheticCase} {ts : List TrialRecord} → IsTable m cs ts
    → per_case m w cs ≤ count p ts
per_case-le m p w h no_case = omega arith
per_case-le m p w h (one_case c cs block us all_ many table) =
    let rest = per_case-le m p w h table in
    let split = count-append p block us in
    elim (Bool-cases (w c)) [
      | inl e ↦
          let whole = count_all p block (All-map (λ t k. h c t k e) block all_) in
          rw e (omega (arith, split, whole, rest, many))
      | inr e ↦ rw e (omega (arith, split, rest))
    ]

IsTable-length :
    {m : ℕ} {cs : List SyntheticCase} {ts : List TrialRecord}
    → IsTable m cs ts
    → length ts ≡ per_case m (λ c. true) cs
IsTable-length no_case = refl
IsTable-length (one_case c cs block us all_ many table) =
    omega (arith, length-append block us, many, IsTable-length table)

IsTable-All :
    {m : ℕ} {cs : List SyntheticCase} {ts : List TrialRecord}
    → IsTable m cs ts
    → All (λ t. (c : SyntheticCase) × IsTrialOf c t) ts
IsTable-All no_case = tt
IsTable-All (one_case c cs block us all_ many table) =
    All-append _ block us (All-map (λ t h. (c, h)) block all_) (IsTable-All table)

by_truth :
    (ts : List TrialRecord)
    → length ts ≡ length (of_truth compliant ts) + length (of_truth breach ts)
by_truth [] = omega arith
by_truth (t ∷ ts) = ground (arith, by_truth ts)

-- Two tests in turn, where they amount to one.
count_twice :
    (p q both : TrialRecord → Bool) (ts : List TrialRecord)
    → All (λ t. p t && q t ≡ both t) ts
    → length (filter q (filter p ts)) ≡ count both ts
count_twice p q both [] h = refl
count_twice p q both (t ∷ ts) (e, h) = ground (arith, e, count_twice p q both ts h)

-- an accepted trial of one of the scenarios that throttle the service
abbrev passed_throttle : TrialRecord → Bool
passed_throttle t =
    (str_eq t.scenario "mild_throttle" || str_eq t.scenario "severe_throttle")
    && is_decision t.decision accept

-- a rejected trial of one of the scenarios that only vary the measurement
abbrev failed_variance : TrialRecord → Bool
failed_variance t =
    (str_eq t.scenario "healthy_variance" || str_eq t.scenario "marginal_healthy")
    && is_decision t.decision reject

false_accept_here :
    (c : SyntheticCase) (t : TrialRecord)
    → IsTrialOf c t
    → is_truth t.ground_truth breach && is_decision t.decision accept ≡ passed_throttle t
false_accept_here healthy_variance t h = rw (h.named, h.labelled) refl
false_accept_here marginal_healthy t h = rw (h.named, h.labelled) refl
false_accept_here mild_throttle t h = rw (h.named, h.labelled) refl
false_accept_here severe_throttle t h = rw (h.named, h.labelled) refl
false_accept_here replayed_evidence t h = rw (h.named, h.labelled, h.decided) refl
false_accept_here buyer_network_failure t h = rw (h.named, h.labelled) refl
false_accept_here provider_outage t h = rw (h.named, h.labelled, h.decided) refl
false_accept_here telemetry_gap t h = rw (h.named, h.labelled) refl

false_reject_here :
    (c : SyntheticCase) (t : TrialRecord)
    → IsTrialOf c t
    → is_truth t.ground_truth compliant && is_decision t.decision reject ≡ failed_variance t
false_reject_here healthy_variance t h = rw (h.named, h.labelled) refl
false_reject_here marginal_healthy t h = rw (h.named, h.labelled) refl
false_reject_here mild_throttle t h = rw (h.named, h.labelled) refl
false_reject_here severe_throttle t h = rw (h.named, h.labelled) refl
false_reject_here replayed_evidence t h = rw (h.named, h.labelled) refl
false_reject_here buyer_network_failure t h = rw (h.named, h.labelled, h.decided) refl
false_reject_here provider_outage t h = rw (h.named, h.labelled) refl
false_reject_here telemetry_gap t h = rw (h.named, h.labelled, h.decided) refl

-- the cases that are inconclusive
abbrev is_unclear : SyntheticCase → Bool
is_unclear buyer_network_failure = true
is_unclear telemetry_gap = true
is_unclear _ = false

unclear_here :
    (c : SyntheticCase) (t : TrialRecord)
    → IsTrialOf c t
    → is_unclear c ≡ true
    → is_decision t.decision inconclusive ≡ true
unclear_here healthy_variance t h e = cc e
unclear_here marginal_healthy t h e = cc e
unclear_here mild_throttle t h e = cc e
unclear_here severe_throttle t h e = cc e
unclear_here replayed_evidence t h e = cc e
unclear_here buyer_network_failure t h e = rw h.decided refl
unclear_here provider_outage t h e = cc e
unclear_here telemetry_gap t h e = rw h.decided refl

rate-some : {F : Type 0} (ratio : ℕ → ℕ → F) (a b : ℕ) → 1 ≤ b → rate ratio a b ≡ some (ratio a b)
rate-some ratio a zero h = absurd (omega (arith, h))
rate-some ratio a (suc b) h = refl

-- What a summary says of n trials per case.
pub record IsTabulated (F : Type 0) (ratio : ℕ → ℕ → F) (n : ℕ) (ts : List TrialRecord)
    (s : Summary F) : Type 0 where
  all_trials : s.total_trials ≡ 8 * n
  half_compliant : s.compliant_trials ≡ 4 * n
  half_breach : s.breach_trials ≡ 4 * n
  wrongly_accepted : s.false_accepts ≡ count passed_throttle ts
  wrongly_rejected : s.false_rejects ≡ count failed_variance ts
  accept_rate : s.far ≡ some (ratio (count passed_throttle ts) (4 * n))
  reject_rate : s.frr ≡ some (ratio (count failed_variance ts) (4 * n))
  abstained : 2 * n ≤ s.inconclusive_trials

module _ (F : Type 0) ⦃fl : Float F⦄ ⦃ns : Noise F⦄ ⦃hs : Hashing F⦄ (ratio : ℕ → ℕ → F)
    (clock : SyntheticCase → ℤ → ℤ) where
  -- Where the scores of the simulator are not below its floor, the summary of a run that returns, of n
  -- trials per case, has 8n trials, of which 4n are compliant and 4n are breaches. The false
  -- acceptances are the accepted trials of the two throttling scenarios and the false rejections the
  -- rejected trials of the two healthy ones, each also as a rate of 4n; and at least 2n trials are
  -- inconclusive.
  pub summarize-IsTabulated :
      ScoresPass F fl
      → (n : ℕ) (base_seed : ℤ) (ts : List TrialRecord)
      → run_matrix F clock (pos n) base_seed ≡ ok ts
      → IsTabulated F ratio n ts (summarize ratio ts)
  unfolding summarize
  summarize-IsTabulated pass n base_seed ts h =
      let table = run_matrix-IsTable F pass clock (pos n) base_seed ts h in
      let positive = run_matrix-positive F clock n base_seed ts h in
      let every = IsTable-All table in
      let total = IsTable-length table in
      let fair =
        per_case-le n (λ t. is_truth t.ground_truth compliant)
          (λ c. is_truth (truth_of c) compliant) (λ c t k e. rw k.labelled e) table in
      let bad =
        per_case-le n (λ t. is_truth t.ground_truth breach) (λ c. is_truth (truth_of c) breach)
          (λ c t k e. rw k.labelled e) table in
      let open_ =
        per_case-le n (λ t. is_decision t.decision inconclusive) is_unclear unclear_here table in
      let both = by_truth ts in
      let fair_all : length (of_truth compliant ts) ≡ 4 * n =
        omega (arith, total, fair, bad, both) in
      let bad_all : length (of_truth breach ts) ≡ 4 * n = omega (arith, total, fair, bad, both) in
      let accepts =
        count_twice (λ t. is_truth t.ground_truth breach) (λ t. is_decision t.decision accept)
          passed_throttle ts (All-map (λ t k. false_accept_here k.0 t k.1) ts every) in
      let rejects =
        count_twice (λ t. is_truth t.ground_truth compliant) (λ t. is_decision t.decision reject)
          failed_variance ts (All-map (λ t k. false_reject_here k.0 t k.1) ts every) in
      record {
        all_trials = omega (arith, total);
        half_compliant = fair_all;
        half_breach = bad_all;
        wrongly_accepted = accepts;
        wrongly_rejected = rejects;
        accept_rate =
            (λ i. rate ratio (accepts i) (bad_all i))
            ∙ rate-some ratio _ (4 * n) (omega (arith, positive));
        reject_rate =
            (λ i. rate ratio (rejects i) (fair_all i))
            ∙ rate-some ratio _ (4 * n) (omega (arith, positive));
        abstained = omega (arith, open_);
      }
