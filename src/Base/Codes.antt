-- ===== src/Base/Codes.antt =====
-- `tuple(sorted(set(codes)))`: the reason codes of a verdict, in order and each once.
use Prim.Native.Nat.{Ordering}
use Prim.Native.String.{String, compare}
use mathlib.Core.Path.{◌≡◌, refl, ap, ◌∙◌}
use mathlib.Core.Bool.{false, ◌||◌}
use mathlib.Core.List.{List, [], ◌∷◌, ◌++◌, map}
use native.Mathlib.Omega.{arith}
use north_standard.Base.Lists.{All, is_empty}
use north_standard.Base.Text.{str_eq, path_by_compare, lt_of_gt, str_lt_trans, contains}

insert_code : String → List String → List String
insert_code x [] = x ∷ []
insert_code x (y ∷ ys) = elim (compare x y) [
  | Ordering.lt ↦ x ∷ y ∷ ys
  | Ordering.eq ↦ y ∷ ys
  | Ordering.gt ↦ y ∷ insert_code x ys
]

unfoldable pub sorted_set : List String → List String
unfolding insert_code
sorted_set [] = []
sorted_set (x ∷ xs) = insert_code x (sorted_set xs)

-- In strictly rising order, so that no text stands twice.
abbrev pub IsStrictlySorted : List String → Type 0
IsStrictlySorted [] = Unit
IsStrictlySorted (x ∷ xs) = All (λ y. compare x y ≡ Ordering.lt) xs × IsStrictlySorted xs

All-insert_code :
    (P : String → Type 0) (x : String) (ys : List String)
    → P x
    → All P ys
    → All P (insert_code x ys)
unfolding insert_code
All-insert_code P x [] p ps = (p, tt)
All-insert_code P x (y ∷ ys) p (py, ps) =
    elim (compare x y)
      as (λ o. All P (elim o [
        | Ordering.lt ↦ x ∷ y ∷ ys
        | Ordering.eq ↦ y ∷ ys
        | Ordering.gt ↦ y ∷ insert_code x ys
      ])) [
        | Ordering.lt ↦ (p, (py, ps))
        | Ordering.eq ↦ (py, ps)
        | Ordering.gt ↦ (py, All-insert_code P x ys p ps)
      ]

All-lt_trans :
    (x y : String) (ys : List String)
    → compare x y ≡ Ordering.lt
    → All (λ z. compare y z ≡ Ordering.lt) ys
    → All (λ z. compare x z ≡ Ordering.lt) ys
All-lt_trans x y [] h a = tt
All-lt_trans x y (z ∷ zs) h (a, as') = (str_lt_trans x y z h a, All-lt_trans x y zs h as')

data Order (x y : String) : Type 0 where
  less : compare x y ≡ Ordering.lt → Order x y
  same : compare x y ≡ Ordering.eq → Order x y
  more : compare x y ≡ Ordering.gt → Order x y

Order-of : (x y : String) → Order x y
Order-of x y = go (compare x y) refl
  where
    go : (o : Ordering) → compare x y ≡ o → Order x y
    go Ordering.lt e = less e
    go Ordering.eq e = same e
    go Ordering.gt e = more e

insert_code-IsStrictlySorted :
    (x : String) (ys : List String) → IsStrictlySorted ys → IsStrictlySorted (insert_code x ys)
unfolding insert_code
insert_code-IsStrictlySorted x [] h = (tt, tt)
insert_code-IsStrictlySorted x (y ∷ ys) (a, s) = elim (Order-of x y) [
  | less e ↦ rw (e, insert_code) ((e, All-lt_trans x y ys e a), (a, s))
  | same e ↦ rw (e, insert_code) (a, s)
  | more e ↦
      rw (e, insert_code)
        (
          All-insert_code (λ z. compare y z ≡ Ordering.lt) x ys (lt_of_gt x y e) a,
          insert_code-IsStrictlySorted x ys s,
        )
]

pub sorted_set-IsStrictlySorted : (xs : List String) → IsStrictlySorted (sorted_set xs)
unfolding sorted_set
sorted_set-IsStrictlySorted [] = tt
sorted_set-IsStrictlySorted (x ∷ xs) =
    insert_code-IsStrictlySorted x (sorted_set xs) (sorted_set-IsStrictlySorted xs)

pub contains-append :
    (z : String) (xs ys : List String) → contains z (xs ++ ys) ≡ (contains z xs || contains z ys)
contains-append z [] ys = refl
contains-append z (x ∷ xs) ys = ground (arith, contains-append z xs ys)

contains-insert_code :
    (z x : String) (ys : List String)
    → contains z (insert_code x ys) ≡ (str_eq z x || contains z ys)
unfolding insert_code
contains-insert_code z x [] = refl
contains-insert_code z x (y ∷ ys) = elim (Order-of x y) [
  | less e ↦ rw (e, insert_code) refl
  | same e ↦ rw (e, insert_code, path_by_compare x y e) (ground arith)
  | more e ↦ rw (e, insert_code, contains-insert_code z x ys) (ground arith)
]

-- Sorting and dropping the repetitions keeps the members.
pub contains-sorted_set :
    (z : String) (xs : List String) → contains z (sorted_set xs) ≡ contains z xs
unfolding sorted_set
contains-sorted_set z [] = refl
contains-sorted_set z (x ∷ xs) =
    rw (contains-insert_code z x (sorted_set xs), contains-sorted_set z xs)

-- `sorted(d.items())`, for a dictionary whose keys are texts
module _ {ℓ} {A : Type ℓ} where
  insert_item : String × A → List (String × A) → List (String × A)
  insert_item e [] = e ∷ []
  insert_item (k, a) ((j, b) ∷ es) = elim (compare k j) [
    | Ordering.gt ↦ (j, b) ∷ insert_item (k, a) es
    | _ ↦ (k, a) ∷ (j, b) ∷ es
  ]

  unfoldable pub sort_items : List (String × A) → List (String × A)
  unfolding insert_item
  sort_items [] = []
  sort_items (e ∷ es) = insert_item e (sort_items es)

-- A list that is in order already is left as it is.
pub sorted_set-eq_of_sorted : (xs : List String) → IsStrictlySorted xs → sorted_set xs ≡ xs
unfolding sorted_set
sorted_set-eq_of_sorted [] h = refl
sorted_set-eq_of_sorted (x ∷ xs) (below, h) =
    rw (sorted_set-eq_of_sorted xs h) (insert_below x xs below)
  where
    insert_below :
        (y : String) (ys : List String)
        → All (λ z. compare y z ≡ Ordering.lt) ys
        → insert_code y ys ≡ y ∷ ys
    insert_below y [] k = refl
    insert_below y (z ∷ zs) (k, ks) = rw (k, insert_code) refl

-- The set of a list is empty only for an empty list.
pub is_empty-sorted_set : (xs : List String) → is_empty (sorted_set xs) ≡ is_empty xs
unfolding sorted_set
is_empty-sorted_set [] = refl
is_empty-sorted_set (x ∷ xs) = nonempty_insert x (sorted_set xs)
  where
    nonempty_insert : (y : String) (ys : List String) → is_empty (insert_code y ys) ≡ false
    nonempty_insert y [] = refl
    nonempty_insert y (z ∷ zs) = elim (Order-of y z) [
      | less e ↦ rw (e, insert_code) refl
      | same e ↦ rw (e, insert_code) refl
      | more e ↦ rw (e, insert_code) refl
    ]

-- Sorting by key commutes with a map of the entries that keeps the keys.
module _ {ℓ κ} {A : Type ℓ} {B : Type κ} (f : A → B) where
  abbrev pub on_value : String × A → String × B
  on_value (k, a) = (k, f a)

  map-insert_item :
      (e : String × A) (es : List (String × A))
      → map on_value (insert_item e es) ≡ insert_item (on_value e) (map on_value es)
  unfolding insert_item
  map-insert_item (k, a) [] = refl
  map-insert_item (k, a) ((j, b) ∷ es) = elim (Order-of k j) [
    | less h ↦ rw (h, insert_item) refl
    | same h ↦ rw (h, insert_item) refl
    | more h ↦ rw (h, insert_item, map-insert_item (k, a) es) refl
  ]

  pub map-sort_items :
      (es : List (String × A)) → map on_value (sort_items es) ≡ sort_items (map on_value es)
  unfolding sort_items
  map-sort_items [] = refl
  map-sort_items (e ∷ es) =
      map-insert_item e (sort_items es) ∙ ap (insert_item (on_value e)) (map-sort_items es)
