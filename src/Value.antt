-- ===== src/Value.antt =====
-- The Python values that evidence payloads and serialized objects are made of (`Any` in
-- src/north_standard/models.py), over an abstract type of floats.
use north_standard.Base.{
  ℕ, String, Bool, true, false, not, ◌&&◌, Option, none, some, List, [], ◌∷◌, Result, ok, err,
  type_error, key_error, overflow_error, ◌||◌, str_eq, nonempty, or_raise, if◌then◌else◌, ◌==◌,
}
use north_standard.Base.Int.{ℤ, pos, negsuc}

-- What the program does with a `float`. `of_int` is `float(n)`, with `none` for its OverflowError;
-- `lit m e` is the literal m · 10^-e; `sum` is the builtin, and `div_count x n` is `x / n`.
pub record Float (F : Type 0) : Type 0 where
  pub of_int : ℤ → Option F
  pub lit : ℕ → ℕ → F
  pub lt : F → F → Bool
  pub is_zero : F → Bool
  pub sum : List F → F
  pub div_count : F → ℕ → F

-- `enum s` is a member of one of the `str` enumerations, `dataclass` an instance of a dataclass by
-- its fields. The keys of a dictionary are texts, in insertion order.
mutual
  pub data Value (F : Type 0) : Type 0 where
    null : Value F
    boolean : Bool → Value F
    integer : ℤ → Value F
    float : F → Value F
    str enum : String → Value F
    list tuple : Items F → Value F
    dict dataclass : Fields F → Value F

  pub data Items (F : Type 0) : Type 0 where
    nil : Items F
    cons : Value F → Items F → Items F

  pub data Fields (F : Type 0) : Type 0 where
    end : Fields F
    field : String → Value F → Fields F → Fields F

module _ {F : Type 0} where
  -- `d.get(key, default)`
  abbrev pub get : String → Value F → Fields F → Value F
  get k default end = default
  get k default (field j v fs) = if str_eq k j then v else get k default fs

  -- `d[key]`
  abbrev pub item : String → Fields F → Result (Value F)
  item k end = err key_error
  item k (field j v fs) = elim (str_eq k j) [ true ↦ ok v | false ↦ item k fs ]

  -- `{**d, key: v}`
  abbrev pub put : String → Value F → Fields F → Fields F
  put k v end = field k v end
  put k v (field j w fs) = if str_eq k j then field j v fs else field j w (put k v fs)

  -- `{**d, **e}`
  abbrev pub merge : Fields F → Fields F → Fields F
  merge d end = d
  merge d (field k v fs) = merge (put k v d) fs

  -- a dictionary display
  abbrev pub fields_of : List (String × Value F) → Fields F
  fields_of [] = end
  fields_of ((k, v) ∷ kvs) = field k v (fields_of kvs)

  abbrev pub dict_of : List (String × Value F) → Value F
  dict_of kvs = dict (fields_of kvs)

  -- `list(texts)`
  abbrev pub texts_of : List String → Items F
  texts_of [] = nil
  texts_of (s ∷ ss) = cons (str s) (texts_of ss)

  abbrev pub texts : List String → Value F
  texts ss = list (texts_of ss)

  abbrev pub items_of : List (Value F) → Items F
  items_of [] = nil
  items_of (v ∷ vs) = cons v (items_of vs)

  abbrev pub optional : Option String → Value F
  optional none = null
  optional (some s) = str s

  -- the text of a `str`, the number of an `int` that is no `bool`
  abbrev pub as_text : Value F → Option String
  as_text (str s) = some s
  as_text (enum s) = some s
  as_text _ = none

  abbrev pub as_int : Value F → Option ℤ
  as_int (integer n) = some n
  as_int _ = none

  -- `key in d`
  abbrev pub has_key : String → Fields F → Bool
  has_key k end = false
  has_key k (field j v fs) = str_eq k j || has_key k fs

  -- the members of a list
  abbrev pub items_in : Items F → List (Value F)
  items_in nil = []
  items_in (cons v xs) = v ∷ items_in xs

  -- What the code uses as a list or as a dictionary, and is refused otherwise.
  abbrev pub as_list : Value F → Result (List (Value F))
  as_list (list xs) = ok (items_in xs)
  as_list _ = err type_error

  abbrev pub as_dict : Value F → Result (Fields F)
  as_dict (dict fs) = ok fs
  as_dict _ = err type_error

  -- `v == text`
  abbrev pub is_text : String → Value F → Bool
  is_text t (str s) = str_eq s t
  is_text t (enum s) = str_eq s t
  is_text t _ = false

  -- `isinstance(v, (int, float))`, of which a `bool` is an instance too
  abbrev pub is_number : Value F → Bool
  is_number (boolean _) = true
  is_number (integer _) = true
  is_number (float _) = true
  is_number _ = false

-- What is looked up in a set is hashed first; lists and dictionaries cannot be, nor what holds them.
unfoldable mutual
  pub is_hashable : {F : Type 0} → Value F → Bool
  is_hashable (list _) = false
  is_hashable (dict _) = false
  is_hashable (tuple xs) = items_hashable xs
  is_hashable (dataclass fs) = fields_hashable fs
  is_hashable null = true
  is_hashable (boolean _) = true
  is_hashable (integer _) = true
  is_hashable (float _) = true
  is_hashable (str _) = true
  is_hashable (enum _) = true

  pub items_hashable : {F : Type 0} → Items F → Bool
  items_hashable nil = true
  items_hashable (cons v xs) = is_hashable v && items_hashable xs

  pub fields_hashable : {F : Type 0} → Fields F → Bool
  fields_hashable end = true
  fields_hashable (field _ v fs) = is_hashable v && fields_hashable fs

module _ {F : Type 0} ⦃fl : Float F⦄ where
  -- `bool(v)`
  abbrev pub truthy : Value F → Bool
  truthy null = false
  truthy (boolean b) = b
  truthy (integer (pos n)) = not (n == 0)
  truthy (integer (negsuc _)) = true
  truthy (float x) = not (fl.is_zero x)
  truthy (str s) = nonempty s
  truthy (enum s) = nonempty s
  truthy (list nil) = false
  truthy (list (cons _ _)) = true
  truthy (tuple nil) = false
  truthy (tuple (cons _ _)) = true
  truthy (dict end) = false
  truthy (dict (field _ _ _)) = true
  truthy (dataclass _) = true

  -- `float(v)`, which the code calls on numbers alone
  abbrev pub to_float : Value F → Result F
  to_float (boolean b) = or_raise (fl.of_int (pos (if b then 1 else 0))) overflow_error
  to_float (integer n) = or_raise (fl.of_int n) overflow_error
  to_float (float x) = ok x
  to_float _ = err type_error
