-- ===== src/Samples.antt =====
-- Concrete parameters for the tests: floats as millionths, and a stand-in for the hash.
use Prim.Native.String.{◌++◌ as str_append}
use Prim.Native.Nat.{◌^◌}
use mathlib.Core.List.{foldl}
use north_standard.Base.{
  ℕ, suc, ◌+◌, ◌-◌, ◌*◌, ◌/◌, String, Bool, true, false, Option, none, some, zero, map, List, [],
  ◌∷◌, length, Result, ok, err, value_error, if◌then◌else◌,
}
use north_standard.Base.Int.{ℤ, pos, negsuc, pos_part, neg_part, sub_ℕ, ltb_ℤ, eq_ℤ}
use north_standard.Value.{
  Float, Value, null, boolean, integer, float, str, enum, list, tuple, dict, dataclass, Items, nil,
  cons, Fields, end, field,
}
use north_standard.Canonical.{Hashing}
use north_standard.Experiments.{Noise}
use north_standard.Challenges.{Scheduler, count_from}
use north_standard.Recorded.{Measure}
use north_standard.Recorded.Protocol.{Whole}

-- A number of millionths; `none` is NaN.
abbrev pub Micro : Type 0
Micro = Option ℤ

abbrev scale : ℤ → ℤ
scale (pos n) = pos (n * 1_000_000)
scale (negsuc n) = negsuc (suc n * 1_000_000 - 1)

abbrev on_both : (ℤ → ℤ → Bool) → Micro → Micro → Bool
on_both f (some a) (some b) = f a b
on_both f _ _ = false

abbrev add : Micro → Micro → Micro
add (some a) (some b) = some (sub_ℕ (pos_part a + pos_part b) (neg_part a + neg_part b))
add _ _ = none

abbrev divide : Micro → ℕ → Micro
divide (some (pos n)) k = some (pos (n / k))
divide (some (negsuc n)) k = some (sub_ℕ 0 (suc n / k))
divide none k = none

instance abbrev pub micro_float : Float Micro
micro_float = record {
  of_int = λ n. some (some (scale n));
  lit = λ m e. some (pos (m * 10 ^ (6 - e)));
  lt = on_both ltb_ℤ;
  is_zero = λ x. on_both eq_ℤ x (some (pos 0));
  sum = foldl add (some (pos 0));
  div_count = divide;
}

abbrev join : Option String → Option String → Option String
join (some s) (some t) = some (str_append s t)
join _ _ = none

-- A text of the value's own texts, and none where a NaN is among them.
unfoldable mutual
  pub sketch : Value Micro → Option String
  sketch null = some "null"
  sketch (boolean true) = some "true"
  sketch (boolean false) = some "false"
  sketch (integer _) = some "0"
  sketch (float none) = none
  sketch (float (some _)) = some "0.0"
  sketch (str s) = some s
  sketch (enum s) = some s
  sketch (list xs) = sketch_items xs
  sketch (tuple xs) = sketch_items xs
  sketch (dict fs) = sketch_fields fs
  sketch (dataclass fs) = sketch_fields fs

  pub sketch_items : Items Micro → Option String
  sketch_items nil = some ","
  sketch_items (cons v xs) = join (sketch v) (sketch_items xs)

  pub sketch_fields : Fields Micro → Option String
  sketch_fields end = some ";"
  sketch_fields (field k v fs) = join (some k) (join (sketch v) (sketch_fields fs))

abbrev pub zero_digest : String
zero_digest = "0000000000000000000000000000000000000000000000000000000000000000"

instance abbrev pub sample_hashing : Hashing Micro
sample_hashing = record { dumps = sketch; sha256_hex = λ _. zero_digest }

-- the quotient of two numbers of millionths that are not negative
abbrev quotient : Micro → Micro → Micro
quotient (some (pos a)) (some (pos (suc b))) = some (pos (a * 1_000_000 / suc b))
quotient _ _ = none

abbrev insert_micro : Micro → List Micro → List Micro
insert_micro x [] = x ∷ []
insert_micro x (y ∷ ys) = if on_both ltb_ℤ y x then y ∷ insert_micro x ys else x ∷ y ∷ ys

abbrev sort_micro : List Micro → List Micro
sort_micro [] = []
sort_micro (x ∷ xs) = insert_micro x (sort_micro xs)

-- the two elements in the middle, or twice the one, by dropping both ends
abbrev middle : (fuel : ℕ) → List Micro → List Micro
middle zero xs = xs
middle (suc n) [] = []
middle (suc n) (x ∷ []) = x ∷ x ∷ []
middle (suc n) (x ∷ y ∷ []) = x ∷ y ∷ []
middle (suc n) (_ ∷ y ∷ z ∷ zs) = middle n (without_last y z zs)
  where
    without_last : Micro → Micro → List Micro → List Micro
    without_last a b [] = a ∷ []
    without_last a b (c ∷ cs) = a ∷ without_last b c cs

instance abbrev pub sample_measure : Measure Micro
sample_measure = record {
  is_finite = λ x. on_both eq_ℤ x x;
  div = quotient;
  median = λ xs. divide (foldl add (some (pos 0)) (middle (length xs) (sort_micro xs))) 2;
}

-- `int` of a float that is not negative, and of no text
abbrev truncated : Micro → Result ℤ
truncated (some (pos n)) = ok (pos (n / 1_000_000))
truncated _ = err (value_error "cannot convert float to integer")

instance abbrev pub sample_whole : Whole Micro
sample_whole = record { truncate = truncated; parse = λ _. none }

abbrev minus : Micro → Micro → Micro
minus (some a) (some b) = some (sub_ℕ (pos_part a + neg_part b) (neg_part a + pos_part b))
minus _ _ = none

-- the product of two numbers of millionths that are not negative
abbrev times : Micro → Micro → Micro
times (some (pos a)) (some (pos b)) = some (pos (a * b / 1_000_000))
times _ _ = none

instance abbrev pub sample_noise : Noise Micro
sample_noise = record {
  add = add;
  sub = minus;
  mul = times;
  round_to = λ x n. x;
  draw = λ seed k. some (pos 500_000);
}

abbrev whole_quotient : ℤ → ℤ → Option Micro
whole_quotient (pos a) (pos (suc b)) = some (some (pos (a * 1_000_000 / suc b)))
whole_quotient _ _ = none

abbrev rounded : Micro → ℤ
rounded (some (pos n)) = pos ((n + 500_000) / 1_000_000)
rounded _ = pos 0

-- The generator draws the numbers from the lowest on.
instance abbrev pub sample_scheduler : Scheduler Micro
sample_scheduler = record {
  int_div = whole_quotient;
  round_int = rounded;
  randint = λ seed low high k. sub_ℕ (pos_part low + k) (neg_part low);
  sample_range = λ seed low high n. ok (map (λ k. pos k) (count_from (pos_part low) (pos_part n)));
}
