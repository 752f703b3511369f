-- ===== src/Canonical.antt =====
-- src/north_standard/canonical.py: canonical JSON and its digest. `json.dumps` and `hashlib.sha256`
-- are parameters.
use north_standard.Base.{String, Option, Result, value_error, or_raise, ◌>>=◌, ok}
use north_standard.Value.{
  Value, null, boolean, integer, float, str, enum, list, tuple, dict, dataclass, Items, nil, cons,
  Fields, end, field,
}

-- `dumps v` is `json.dumps` with the module's options, `none` where it refuses a NaN or an infinity;
-- `sha256_hex s` is the hexadecimal digest of the UTF-8 bytes of `s`.
pub record Hashing (F : Type 0) : Type 0 where
  pub dumps : Value F → Option String
  pub sha256_hex : String → String

-- `_normalize`. A dataclass becomes the dictionary of its fields, an enumeration member its value, a
-- tuple a list.
unfoldable mutual
  pub normalize : {F : Type 0} → Value F → Value F
  normalize (enum s) = str s
  normalize (list xs) = list (normalize_items xs)
  normalize (tuple xs) = list (normalize_items xs)
  normalize (dict fs) = dict (normalize_fields fs)
  normalize (dataclass fs) = dict (normalize_fields fs)
  normalize null = null
  normalize (boolean b) = boolean b
  normalize (integer n) = integer n
  normalize (float x) = float x
  normalize (str s) = str s

  pub normalize_items : {F : Type 0} → Items F → Items F
  normalize_items nil = nil
  normalize_items (cons v xs) = cons (normalize v) (normalize_items xs)

  pub normalize_fields : {F : Type 0} → Fields F → Fields F
  normalize_fields end = end
  normalize_fields (field k v fs) = field k (normalize v) (normalize_fields fs)

module _ {F : Type 0} ⦃hs : Hashing F⦄ where
  unfoldable pub canonical_json : Value F → Result String
  canonical_json v =
      or_raise (hs.dumps (normalize v))
        (value_error "Out of range float values are not JSON compliant")

  unfoldable pub canonical_sha256 : Value F → Result String
  canonical_sha256 v = canonical_json v >>= λ text. ok (hs.sha256_hex text)
