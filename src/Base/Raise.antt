-- ===== src/Base/Raise.antt =====
-- A Python call that may raise: its value, or the exception.
use Prim.Native.String.{String}
use mathlib.Core.Path.{◌≡◌, refl, ap, subst}
use Prim.Native.Nat.{suc}
use mathlib.Core.Bool.{Bool, true, false}
use mathlib.Core.List.{List, [], ◌∷◌}
use mathlib.Core.Option.{Option, none, some}
use north_standard.Base.Tests.{if◌then◌else◌}
use north_standard.Base.Lists.{All, length}

-- The exception classes of the program, with the message where the source gives one.
pub data Error : Type 0 where
  value_error : String → Error
  recorded_real_error : String → Error
  type_error overflow_error key_error index_error assertion_error : Error
  runtime_error : String → Error

-- What a call comes to.
pub data Result {ℓ} (A : Type ℓ) : Type ℓ where
  err : (raised : Error) → Result A
  ok : (returned : A) → Result A

module _ {ℓ κ} {A : Type ℓ} {B : Type κ} where
  -- the rest of a function, which an exception skips
  infixl 5 ◌>>=◌
  abbrev pub ◌>>=◌ : (call : Result A) (rest : A → Result B) → Result B
  err raised >>= rest = err raised
  ok returned >>= rest = rest returned

-- the rest after a check
infixl 5 ◌>>◌
abbrev pub ◌>>◌ {κ} : {A : Type κ} (check : Result (Unit {0})) (rest : Result A) → Result A
check >> rest = check >>= λ _. rest

-- `if c: raise e`
abbrev pub raise_if : Bool → Error → Result (Unit {0})
raise_if true e = err e
raise_if false e = ok tt

abbrev pub or_raise {ℓ} : {A : Type ℓ} → Option A → Error → Result A
or_raise none e = err e
or_raise (some a) e = ok a

pub ok-injective {ℓ} : {A : Type ℓ} (a b : A) → ok a ≡ ok b → a ≡ b
ok-injective a b h = cc

-- A call that raises nothing returns.
pub returns_of_no_error {ℓ} :
    {A : Type ℓ} (m : Result A) → ((e : Error) → m ≡ err e → ⊥) → (a : A) × (m ≡ ok a)
returns_of_no_error (ok a) h = (a, refl)
returns_of_no_error (err e) h = absurd (h e refl)

module _ {ℓ κ} {A : Type ℓ} {B : Type κ} where
  -- `[f(x) for x in xs]`, for an `f` that may raise
  abbrev pub map_result : (A → Result B) → List A → Result (List B)
  map_result f [] = ok []
  map_result f (x ∷ xs) = f x >>= λ y. map_result f xs >>= λ ys. ok (y ∷ ys)

  -- What returned was made of a call that returned, too.
  pub >>=-eq-ok :
      (call : Result A) (rest : A → Result B) {result : B}
      → (call >>= rest) ≡ ok result
      → (returned : A) × (call ≡ ok returned) × (rest returned ≡ ok result)
  >>=-eq-ok (err raised) rest e = cc
  >>=-eq-ok (ok returned) rest e = (returned, refl, e)

  -- The same, as a step of a proof about a long `do` block.
  pub >>=-eq-ok_then {ℓ₃} :
      {C : Type ℓ₃} (call : Result A) (rest : A → Result B) (result : B)
      → (call >>= rest) ≡ ok result
      → ((returned : A) → call ≡ ok returned → rest returned ≡ ok result → C)
      → C
  >>=-eq-ok_then (err raised) rest result e k = absurd (cc e)
  >>=-eq-ok_then (ok returned) rest result e k = k returned refl e

-- `any(p(x) for x in xs)`, for a `p` that may raise
abbrev pub any_result {ℓ} : {A : Type ℓ} → (A → Result Bool) → List A → Result Bool
any_result p [] = ok false
any_result p (x ∷ xs) = p x >>= λ b. if b then ok true else any_result p xs

-- `for x in xs: f(x)`, for an `f` that only may raise
abbrev pub check_each {ℓ} : {A : Type ℓ} → (A → Result (Unit {0})) → List A → Result (Unit {0})
check_each f [] = ok tt
check_each f (x ∷ xs) = f x >> check_each f xs

-- `[x for x in xs if p(x)]`, for a `p` that may raise
abbrev pub filter_result {ℓ} : {A : Type ℓ} → (A → Result Bool) → List A → Result (List A)
filter_result p [] = ok []
filter_result p (x ∷ xs) = p x >>= λ b. filter_result p xs >>= λ ys. ok (if b then x ∷ ys else ys)

-- A selection that raises on no element and keeps none.
module _ {ℓ} {A : Type ℓ} (p : A → Result Bool) where
  pub filter_result-nil→All :
      (xs : List A) → filter_result p xs ≡ ok [] → All (λ x. p x ≡ ok false) xs
  filter_result-nil→All [] h = tt
  filter_result-nil→All (x ∷ xs) h =
      let (b, e, h') = >>=-eq-ok (p x) _ h in
      let (ys, e', h'') = >>=-eq-ok (filter_result p xs) _ h' in
      none_kept b ys e e' h'' (filter_result-nil→All xs)
    where
      none_kept :
          (b : Bool) (ys : List A)
          → p x ≡ ok b
          → filter_result p xs ≡ ok ys
          → ok (if b then x ∷ ys else ys) ≡ ok []
          → (filter_result p xs ≡ ok [] → All (λ y. p y ≡ ok false) xs)
          → All (λ y. p y ≡ ok false) (x ∷ xs)
      none_kept true ys e e' k rest = cc
      none_kept false [] e e' k rest = (e, rest e')
      none_kept false (y ∷ ys) e e' k rest = cc

  pub All→filter_result-nil :
      (xs : List A) → All (λ x. p x ≡ ok false) xs → filter_result p xs ≡ ok []
  All→filter_result-nil [] h = refl
  All→filter_result-nil (x ∷ xs) (e, h) = rw (e, All→filter_result-nil xs h)

-- What holds of each result holds of all, and there are as many results as arguments.
pub map_result→All {ℓ κ ι} :
    {A : Type ℓ} {B : Type κ} (P : B → Type ι) (f : A → Result B)
    → ((x : A) (y : B) → f x ≡ ok y → P y)
    → (xs : List A) (ys : List B) → map_result f xs ≡ ok ys
    → All P ys × (length ys ≡ length xs)
map_result→All P f each [] ys h =
    subst (λ zs. All P zs × (length zs ≡ 0)) (ok-injective _ _ h) (tt, refl)
map_result→All P f each (x ∷ xs) ys h =
    let (y, e, h') = >>=-eq-ok (f x) _ h in
    let (rest, e', h'') = >>=-eq-ok (map_result f xs) _ h' in
    let (all_, n) = map_result→All P f each xs rest e' in
    subst (λ zs. All P zs × (length zs ≡ suc (length xs))) (ok-injective _ _ h'')
      ((each x y e, all_), ap suc n)

pub check_each→All {ℓ} :
    {A : Type ℓ} (f : A → Result (Unit {0})) (xs : List A)
    → check_each f xs ≡ ok tt
    → All (λ x. f x ≡ ok tt) xs
check_each→All f [] h = tt
check_each→All f (x ∷ xs) h = let (u, e, h') = >>=-eq-ok (f x) _ h in (e, check_each→All f xs h')
