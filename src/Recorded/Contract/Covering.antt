-- ===== src/Recorded/Contract/Covering.antt =====
-- The delivery window of the contract that `build_recorded_contract` makes.
use mathlib.Core.Path.{subst}
use north_standard.Base.{
  not, any, if◌then◌else◌, List, [], ◌∷◌, ◌≡◌, sym, ◌∙◌, arith, All, All-map, All-zip, ok,
  recorded_real_error, >>=-eq-ok_then, ok-injective, raise_if, map_result, check_each,
}
use north_standard.Base.Int.{ℤ, pos, ◌≤ℤ◌, ◌<ℤ◌, ltb_ℤ, ◌+ℤ◌, ◌-ℤ◌, +ℤ_parts, -ℤ_parts}
use north_standard.Value.{Float, Fields}
use north_standard.Canonical.{Hashing}
use north_standard.Models.{ComputeContract, check_contract, delivery_end}
use north_standard.Recorded.{Measure}
use north_standard.Recorded.Trace.{validate_trace, device_fingerprint}
use north_standard.Recorded.Calibration.{
  text_at, max_from, min_from, max_of_ints, min_of_ints, has_distinct,
}
use north_standard.Recorded.Contract.{
  Parties, at_least_60, observed_seconds, first_of, build_recorded_contract,
}

max_from-bound : (n : ℤ) (ns : List ℤ) → (n ≤ℤ max_from n ns) × All (λ m. m ≤ℤ max_from n ns) ns
max_from-bound n [] = (omega arith, tt)
max_from-bound n (m ∷ ms) =
    let best = if ltb_ℤ n m then m else n in
    let (least, rest) = max_from-bound best ms in
    (ground (arith, least), (ground (arith, least), rest))

min_from-bound : (n : ℤ) (ns : List ℤ) → (min_from n ns ≤ℤ n) × All (λ m. min_from n ns ≤ℤ m) ns
min_from-bound n [] = (omega arith, tt)
min_from-bound n (m ∷ ms) =
    let best = if ltb_ℤ m n then m else n in
    let (least, rest) = min_from-bound best ms in
    (ground (arith, least), (ground (arith, least), rest))

max_of_ints-bound : (ns : List ℤ) (n : ℤ) → max_of_ints ns ≡ ok n → All (λ m. m ≤ℤ n) ns
max_of_ints-bound [] n h = tt
max_of_ints-bound (m ∷ ms) n h =
    subst (λ k. All (λ m. m ≤ℤ k) (m ∷ ms)) (ok-injective _ _ h) (max_from-bound m ms)

min_of_ints-bound : (ns : List ℤ) (n : ℤ) → min_of_ints ns ≡ ok n → All (λ m. n ≤ℤ m) ns
min_of_ints-bound [] n h = tt
min_of_ints-bound (m ∷ ms) n h =
    subst (λ k. All (λ m. k ≤ℤ m) (m ∷ ms)) (ok-injective _ _ h) (min_from-bound m ms)

within :
    (start last t : ℤ)
    → start ≤ℤ t
    → t ≤ℤ last
    → t <ℤ (start +ℤ at_least_60 (last -ℤ start +ℤ pos 1))
within start last t a b =
    let d = last -ℤ start in
    let e = d +ℤ pos 1 in
    ground
      (arith, -ℤ_parts last start, +ℤ_parts d (pos 1), +ℤ_parts start e, +ℤ_parts start (pos 60))

module _ {F : Type 0} ⦃fl : Float F⦄ ⦃ms : Measure F⦄ ⦃hs : Hashing F⦄ where
  -- the contract over a window, by the other values that go into it
  check_contract-same : (c d : ComputeContract F) → check_contract c ≡ ok d → c ≡ d
  unfolding check_contract
  check_contract-same c d h = ground (arith, h)

  -- The contract that `build_recorded_contract` makes of traces covers them: every sample was observed,
  -- to the second, at or after the start of the delivery and before its end.
  pub build_recorded_contract_covers :
      (traces : List (Fields F)) (parties : Parties F) (c : ComputeContract F) (seconds : List ℤ)
      → build_recorded_contract traces parties ≡ ok c
      → observed_seconds traces ≡ ok seconds
      → All (λ t. (c.delivery_start ≤ℤ t) × (t <ℤ delivery_end c)) seconds
  unfolding build_recorded_contract delivery_end
  build_recorded_contract_covers [] parties c seconds h seen = cc
  build_recorded_contract_covers (first ∷ others) parties c seconds h seen =
      let traces = first ∷ others in
      >>=-eq-ok_then (check_each validate_trace traces) _ c h (λ _ _ h₁.
        >>=-eq-ok_then (map_result (text_at "contract_id") traces) _ c h₁ (λ contracts _ h₂.
          >>=-eq-ok_then (map_result (text_at "session_id") traces) _ c h₂ (λ sessions _ h₃.
            >>=-eq-ok_then (map_result (text_at "runtime_profile_id") traces) _ c h₃
              (λ runtimes _ h₄.
                >>=-eq-ok_then (map_result (text_at "benchmark_profile_id") traces) _ c h₄
                  (λ benchmarks _ h₅.
                    >>=-eq-ok_then (map_result device_fingerprint traces) _ c h₅ (λ prints _ h₆.
                      >>=-eq-ok_then
                        (raise_if
                          (any (λ ids. not (has_distinct 1 ids))
                            (contracts ∷ sessions ∷ runtimes ∷ benchmarks ∷ prints ∷ []))
                          (recorded_real_error
                            "recorded replay traces must share contract/session/device/profile"))
                        _ c h₆
                        (λ _ _ h₇. >>=-eq-ok_then (observed_seconds traces) _ c h₇ (λ times e h₈.
                          >>=-eq-ok_then (min_of_ints times) _ c h₈ (λ start least h₉.
                            >>=-eq-ok_then (max_of_ints times) _ c h₉ (λ last greatest g₁.
                              >>=-eq-ok_then (first_of contracts) _ c g₁ (λ _ _ g₂.
                                >>=-eq-ok_then (first_of sessions) _ c g₂ (λ _ _ g₃.
                                  >>=-eq-ok_then (first_of runtimes) _ c g₃ (λ _ _ g₄.
                                    >>=-eq-ok_then (first_of benchmarks) _ c g₄ (λ _ _ g₅.
                                      let made = check_contract-same _ c g₅ in
                                      let same = ok-injective _ _ (sym e ∙ seen) in
                                      subst
                                        (λ c.
                                          All
                                            (λ t.
                                              (c.delivery_start ≤ℤ t)
                                              × (t <ℤ (c.delivery_start +ℤ c.duration_seconds)))
                                            seconds)
                                        made
                                        (subst (All _) same (
                                          All-map (λ t (a, b). (a, within start last t a b)) times
                                            (All-zip _ _ times (min_of_ints-bound times start least)
                                              (max_of_ints-bound times last
                                                greatest))))))))))))))))))
