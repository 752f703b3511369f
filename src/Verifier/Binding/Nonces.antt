-- ===== src/Verifier/Binding/Nonces.antt =====
-- The replay test of `_binding_claim`: `Counter` finds a repetition exactly when there is one.
use north_standard.Base.{
  ◌≤◌, String, Bool, true, false, not, List, [], ◌∷◌, ◌≡◌, refl, ◌↔◌, arith, filter, is_empty, All,
  contains, str_eq, str_eq_iff, str_eq_refl, Bool-cases, inl, inr, ltb,
}
use north_standard.Verifier.Binding.{count, distinct, duplicates}

-- No text stands twice.
abbrev pub IsNodup : List String → Type 0
IsNodup [] = Unit
IsNodup (x ∷ xs) = (contains x xs ≡ false) × IsNodup xs

count-zero : (x : String) (xs : List String) → contains x xs ≡ false → count x xs ≡ 0
count-zero x [] h = refl
count-zero x (y ∷ ys) h = ground (arith, count-zero x ys)

contains-count : (x : String) (xs : List String) → count x xs ≡ 0 → contains x xs ≡ false
contains-count x [] h = refl
contains-count x (y ∷ ys) h = ground (arith, contains-count x ys)

abbrev IsOnce : List String → Type 0
IsOnce xs = (x : String) → count x xs ≤ 1

IsOnce→IsNodup : (xs : List String) → IsOnce xs → IsNodup xs
IsOnce→IsNodup [] h = tt
IsOnce→IsNodup (x ∷ xs) h = (
  contains-count x xs (ground (arith, h x, str_eq_refl x)),
  IsOnce→IsNodup xs (λ y. ground (arith, h y)),
)

IsNodup→IsOnce : (xs : List String) → IsNodup xs → IsOnce xs
IsNodup→IsOnce [] h x = omega arith
IsNodup→IsOnce (y ∷ ys) (new, h) x = elim (Bool-cases (str_eq x y)) [
  | inl e ↦
      let same : x ≡ y = (str_eq_iff x y).0 e in
      let absent : count x ys ≡ 0 = rw same (count-zero y ys new) in rw e (omega arith)
  | inr e ↦ rw e (IsNodup→IsOnce ys h x)
]

contains-filter_ne :
    (x z : String) (ys : List String)
    → str_eq x z ≡ false
    → contains z (filter (λ y. not (str_eq x y)) ys) ≡ contains z ys
contains-filter_ne x z [] h = refl
contains-filter_ne x z (y ∷ ys) h =
    ground (arith, contains-filter_ne x z ys h, str_eq_iff z y, str_eq_iff x z, str_eq_iff x y)

str_eq_comm : (s t : String) → str_eq s t ≡ str_eq t s
str_eq_comm s t = ground (arith, str_eq_iff s t, str_eq_iff t s)

contains-distinct : (z : String) (xs : List String) → contains z (distinct xs) ≡ contains z xs
contains-distinct z [] = refl
contains-distinct z (x ∷ xs) =
    ground (arith, str_eq_comm z x, contains-distinct z xs, contains-filter_ne x z (distinct xs))

All-member :
    (P : String → Type 0) (z : String) (xs : List String) → All P xs → contains z xs ≡ true → P z
All-member P z [] a h = cc
All-member P z (x ∷ xs) (p, ps) h = elim (Bool-cases (str_eq z x)) [
  | inl e ↦ rw ((str_eq_iff z x).0 e) p
  | inr e ↦ All-member P z xs ps (rw e at h)
]

All-of : (P : String → Type 0) (xs : List String) → ((x : String) → P x) → All P xs
All-of P [] h = tt
All-of P (x ∷ xs) h = (h x, All-of P xs h)

filter_none :
    (p : String → Bool) (xs : List String)
    → All (λ x. p x ≡ false) xs
    → is_empty (filter p xs) ≡ true
filter_none p [] h = refl
filter_none p (x ∷ xs) (e, h) = rw e (filter_none p xs h)

none_of_filter :
    (p : String → Bool) (xs : List String)
    → is_empty (filter p xs) ≡ true
    → All (λ x. p x ≡ false) xs
none_of_filter p [] h = tt
none_of_filter p (x ∷ xs) h = ground (arith, none_of_filter p xs)

IsOnce-of_duplicates : (xs : List String) → is_empty (duplicates xs) ≡ true → IsOnce xs
IsOnce-of_duplicates xs h x = elim (Bool-cases (contains x xs)) [
  | inl e ↦
      let few : ltb 1 (count x xs) ≡ false =
        All-member (λ y. ltb 1 (count y xs) ≡ false) x (distinct xs)
          (none_of_filter (λ y. ltb 1 (count y xs)) (distinct xs) h)
          (rw (contains-distinct x xs) e) in
      ground arith
  | inr e ↦ omega (arith, count-zero x xs e)
]

-- The list of duplicates is empty just where no nonce stands twice.
pub duplicates-empty_iff : (xs : List String) → (is_empty (duplicates xs) ≡ true) ↔ IsNodup xs
duplicates-empty_iff xs = (
  λ h. IsOnce→IsNodup xs (IsOnce-of_duplicates xs h),
  λ h.
      filter_none (λ x. ltb 1 (count x xs)) (distinct xs)
        (All-of (λ x. ltb 1 (count x xs) ≡ false) (distinct xs)
          (λ x. ground (arith, IsNodup→IsOnce xs h x))),
)
