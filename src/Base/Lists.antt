-- ===== src/Base/Lists.antt =====
-- Lists by Boolean tests: Python's comprehensions, `any`, `all` and `len`, over native numbers.
use Prim.Native.Nat.{ℕ, suc, ◌+◌, ◌≤◌}
use mathlib.Core.Path.{◌≡◌, refl}
use mathlib.Core.Logic.{inl, inr}
use mathlib.Core.Bool.{Bool, true, false, not, ◌&&◌, ◌||◌}
use mathlib.Core.List.{List, [], ◌∷◌, ◌++◌}
use native.Mathlib.Omega.{arith}
use north_standard.Base.Tests.{if◌then◌else◌, Bool-cases}

module _ {ℓ} {A : Type ℓ} where
  abbrev pub length : List A → ℕ
  length [] = 0
  length (_ ∷ xs) = suc (length xs)

  -- `[x for x in xs if p(x)]`
  abbrev pub filter : (A → Bool) → List A → List A
  filter p [] = []
  filter p (x ∷ xs) = if p x then x ∷ filter p xs else filter p xs

  abbrev pub any : (A → Bool) → List A → Bool
  any p [] = false
  any p (x ∷ xs) = p x || any p xs

  abbrev pub all : (A → Bool) → List A → Bool
  all p [] = true
  all p (x ∷ xs) = p x && all p xs

  -- `not xs`, for a list or a tuple
  abbrev pub is_empty : List A → Bool
  is_empty [] = true
  is_empty (_ ∷ _) = false

  -- `a or b`, for lists
  abbrev pub or_else : List A → List A → List A
  or_else [] ys = ys
  or_else (x ∷ xs) _ = x ∷ xs

  abbrev pub All {κ} : (A → Type κ) → List A → Type κ
  All P [] = Unit
  All P (x ∷ xs) = P x × All P xs

  pub length-append : (xs ys : List A) → length (xs ++ ys) ≡ length xs + length ys
  length-append [] ys = omega arith
  length-append (x ∷ xs) ys = omega (arith, length-append xs ys)

  pub length-filter-le : (p : A → Bool) (xs : List A) → length (filter p xs) ≤ length xs
  length-filter-le p [] = omega arith
  length-filter-le p (x ∷ xs) = ground (arith, length-filter-le p xs)

  pub All-append {κ} : (P : A → Type κ) (xs ys : List A) → All P xs → All P ys → All P (xs ++ ys)
  All-append P [] ys _ q = q
  All-append P (x ∷ xs) ys (p, ps) q = (p, All-append P xs ys ps q)

abbrev pub concat_map {ℓ κ} : {A : Type ℓ} {B : Type κ} → (A → List B) → List A → List B
concat_map f [] = []
concat_map f (x ∷ xs) = f x ++ concat_map f xs

-- What an empty selection says of the list.
module _ {ℓ} {A : Type ℓ} where
  pub filter-not-empty→All :
      (p : A → Bool) (xs : List A)
      → is_empty (filter (λ x. not (p x)) xs) ≡ true
      → All (λ x. p x ≡ true) xs
  filter-not-empty→All p [] h = tt
  filter-not-empty→All p (x ∷ xs) h = elim (Bool-cases (p x)) [
    | inl e ↦ (e, filter-not-empty→All p xs (rw e at h))
    | inr e ↦ cc (rw e at h)
  ]

  pub All→filter-not-empty :
      (p : A → Bool) (xs : List A)
      → All (λ x. p x ≡ true) xs
      → is_empty (filter (λ x. not (p x)) xs) ≡ true
  All→filter-not-empty p [] h = refl
  All→filter-not-empty p (x ∷ xs) (e, h) = rw e (All→filter-not-empty p xs h)

  -- `any(p(x) for x in xs)` and a selection by `p` agree.
  pub filter-empty-eq-any : (p : A → Bool) (xs : List A) → not (is_empty (filter p xs)) ≡ any p xs
  filter-empty-eq-any p [] = refl
  filter-empty-eq-any p (x ∷ xs) = ground (arith, filter-empty-eq-any p xs)

  pub All-filter : (p : A → Bool) (xs : List A) → All (λ x. p x ≡ true) (filter p xs)
  All-filter p [] = tt
  All-filter p (x ∷ xs) = elim (Bool-cases (p x)) [
    | inl e ↦ rw e (e, All-filter p xs)
    | inr e ↦ rw e (All-filter p xs)
  ]

  pub All-map {κ ι} :
      {P : A → Type κ} {Q : A → Type ι} (f : (x : A) → P x → Q x) (xs : List A)
      → All P xs
      → All Q xs
  All-map f [] h = tt
  All-map f (x ∷ xs) (h, hs) = (f x h, All-map f xs hs)

  pub all→All : (p : A → Bool) (xs : List A) → all p xs ≡ true → All (λ x. p x ≡ true) xs
  all→All p [] h = tt
  all→All p (x ∷ xs) h = ground (arith, all→All p xs)

  pub All→all : (p : A → Bool) (xs : List A) → All (λ x. p x ≡ true) xs → all p xs ≡ true
  All→all p [] h = refl
  All→all p (x ∷ xs) (e, h) = rw e (All→all p xs h)

  pub any-false→All : (p : A → Bool) (xs : List A) → any p xs ≡ false → All (λ x. p x ≡ false) xs
  any-false→All p [] h = tt
  any-false→All p (x ∷ xs) h = ground (arith, any-false→All p xs)

  pub All→any-false : (p : A → Bool) (xs : List A) → All (λ x. p x ≡ false) xs → any p xs ≡ false
  All→any-false p [] h = refl
  All→any-false p (x ∷ xs) (e, h) = rw e (All→any-false p xs h)

  pub All-zip {κ ι} :
      (P : A → Type κ) (Q : A → Type ι) (xs : List A)
      → All P xs
      → All Q xs
      → All (λ x. P x × Q x) xs
  All-zip P Q [] ps qs = tt
  All-zip P Q (x ∷ xs) (p, ps) (q, qs) = ((p, q), All-zip P Q xs ps qs)
