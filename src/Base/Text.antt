-- ===== src/Base/Text.antt =====
-- Texts that are compared whole, and the order of `sorted` on texts.
use Prim.Native.Nat.{ℕ, Ordering, compare as compare_ℕ}
use Prim.Native.Char.{code}
use Prim.Native.String.compare
use Prim.Native.String.{String, compare, then}
use mathlib.Core.Path.{◌≡◌, refl, sym, ◌∙◌, ap, ap₂}
use mathlib.Core.Bool.{Bool, true, false}
use mathlib.Core.List.{List}
use native.Mathlib.Omega.{arith}
use north_standard.Base.Lists.{any}
pub use text.Mathlib.Text.{◌==◌ as str_eq}
pub use text.Mathlib.TextEquality.{eq_iff as str_eq_iff, path_by_compare}
pub use text.Mathlib.TextPositions.{eq_refl as str_eq_refl, compare_refl}

-- `bool(s)`
abbrev pub nonempty : String → Bool
nonempty String.[] = false
nonempty (String.◌∷◌ _ _) = true

-- `x in xs`, for a list, a tuple or a set of texts
abbrev pub contains : String → List String → Bool
contains x = any (str_eq x)

flip : Ordering → Ordering
flip Ordering.lt = Ordering.gt
flip Ordering.eq = Ordering.eq
flip Ordering.gt = Ordering.lt

compare_ℕ-flip : (m n : ℕ) → compare_ℕ n m ≡ flip (compare_ℕ m n)
unfolding flip
compare_ℕ-flip m n = ground arith

flip-then : (o r : Ordering) → flip (then o r) ≡ then (flip o) (flip r)
unfolding flip
flip-then Ordering.lt r = refl
flip-then Ordering.eq r = refl
flip-then Ordering.gt r = refl

compare-flip : (s t : String) → compare t s ≡ flip (compare s t)
unfolding flip
compare-flip String.[] String.[] = compare.nil-nil ∙ sym (ap flip compare.nil-nil)
compare-flip String.[] (String.◌∷◌ d t) =
    compare.cons-nil d t ∙ sym (ap flip (compare.nil-cons d t))
compare-flip (String.◌∷◌ c s) String.[] =
    compare.nil-cons c s ∙ sym (ap flip (compare.cons-nil c s))
compare-flip (String.◌∷◌ c s) (String.◌∷◌ d t) =
    compare.cons-cons d c t s
    ∙ ap₂ then (compare_ℕ-flip (code c) (code d)) (compare-flip s t)
    ∙ sym (flip-then (compare_ℕ (code c) (code d)) (compare s t))
    ∙ sym (ap flip (compare.cons-cons c d s t))

-- Of two texts that are in the wrong order, the other order is right.
pub lt_of_gt : (s t : String) → compare s t ≡ Ordering.gt → compare t s ≡ Ordering.lt
unfolding flip
lt_of_gt s t h = compare-flip s t ∙ ap flip h

then_lt_trans :
    (i j k : ℕ) (r q w : Ordering)
    → then (compare_ℕ i j) r ≡ Ordering.lt
    → then (compare_ℕ j k) q ≡ Ordering.lt
    → (r ≡ Ordering.lt → q ≡ Ordering.lt → w ≡ Ordering.lt)
    → then (compare_ℕ i k) w ≡ Ordering.lt
then_lt_trans i j k r q w a b h = ground arith

pub str_lt_trans :
    (s t u : String)
    → compare s t ≡ Ordering.lt
    → compare t u ≡ Ordering.lt
    → compare s u ≡ Ordering.lt
str_lt_trans String.[] String.[] String.[] h k = h
str_lt_trans String.[] (String.◌∷◌ d t) String.[] h k = cc (compare.cons-nil d t)
str_lt_trans String.[] t (String.◌∷◌ e u) h k = compare.nil-cons e u
str_lt_trans (String.◌∷◌ c s) String.[] u h k = cc (compare.cons-nil c s)
str_lt_trans (String.◌∷◌ c s) (String.◌∷◌ d t) String.[] h k = cc (compare.cons-nil d t)
str_lt_trans (String.◌∷◌ c s) (String.◌∷◌ d t) (String.◌∷◌ e u) h k =
    compare.cons-cons c e s u
    ∙ then_lt_trans (code c) (code d) (code e) (compare s t) (compare t u) (compare s u)
        (sym (compare.cons-cons c d s t) ∙ h) (sym (compare.cons-cons d e t u) ∙ k)
        (str_lt_trans s t u)
