-- ===== src/Authorization/Hex.antt =====
-- src/north_standard/authorization.py: the hexadecimal texts that an authorization holds.
use Prim.Native.Char.{Char, code}
use Prim.Native.String.{◌++◌ as str_append}
use Prim.Native.String.append
use north_standard.Base.{
  ℕ, zero, suc, String, Bool, true, false, not, ◌&&◌, ◌||◌, Result, ok, value_error, ◌==◌, leb,
  if◌then◌else◌, ◌≡◌, refl, ap, ◌∙◌, arith, ◌>>◌, raise_if,
}

-- the class [0-9a-fA-F]
abbrev pub is_hex : Char → Bool
is_hex c =
    (leb b'0' (code c) && leb (code c) b'9')
    || (leb b'a' (code c) && leb (code c) b'f')
    || (leb b'A' (code c) && leb (code c) b'F')

-- exactly so many hexadecimal digits, and nothing else
abbrev pub is_hex_text : ℕ → String → Bool
is_hex_text zero String.[] = true
is_hex_text zero (String.◌∷◌ _ _) = false
is_hex_text (suc n) String.[] = false
is_hex_text (suc n) (String.◌∷◌ c s) = is_hex c && is_hex_text n s

-- `re.compile(r"^0x[0-9a-fA-F]{n}$").fullmatch(s)`
abbrev pub is_prefixed : ℕ → String → Bool
is_prefixed n (String.◌∷◌ c (String.◌∷◌ d s)) =
    code c == b'0' && (code d == b'x' && is_hex_text n s)
is_prefixed n _ = false

-- `str.lower`, on the texts that the code passes to it: "0x" and hexadecimal digits
abbrev pub lower_digit : Char → Char
lower_digit c =
    if code c == b'A'
    then "a"
    else if code c == b'B'
    then "b"
    else if code c == b'C'
    then "c"
    else if code c == b'D'
    then "d"
    else if code c == b'E'
    then "e"
    else if code c == b'F'
    then "f"
    else c

abbrev pub lower : String → String
lower String.[] = String.[]
lower (String.◌∷◌ c s) = String.◌∷◌ (lower_digit c) (lower s)

-- `_require_hex32`
unfoldable pub require_hex32 : (value name : String) → Result String
require_hex32 value name =
    raise_if (not (is_prefixed 64 value))
      (value_error (str_append name " must be a 0x-prefixed bytes32 hex string"))
    >> ok (lower value)

-- `_require_address`
unfoldable pub require_address : String → Result String
require_address value =
    raise_if (not (is_prefixed 40 value))
      (value_error "verifying_contract must be a 20-byte 0x-prefixed address")
    >> ok (lower value)

-- `_prefixed_sha256_hex`
unfoldable pub prefixed_sha256_hex : String → Result String
prefixed_sha256_hex raw =
    raise_if (not (is_hex_text 64 raw)) (value_error "expected a 32-byte SHA-256 hex digest")
    >> ok (str_append "0x" (lower raw))

-- the class [0-9a-f]
abbrev pub is_lower_hex : Char → Bool
is_lower_hex c =
    (leb b'0' (code c) && leb (code c) b'9') || (leb b'a' (code c) && leb (code c) b'f')

abbrev pub is_lower_hex_text : ℕ → String → Bool
is_lower_hex_text zero String.[] = true
is_lower_hex_text zero (String.◌∷◌ _ _) = false
is_lower_hex_text (suc n) String.[] = false
is_lower_hex_text (suc n) (String.◌∷◌ c s) = is_lower_hex c && is_lower_hex_text n s

-- "0x" and so many digits of [0-9a-f]
abbrev pub is_canonical : ℕ → String → Bool
is_canonical n (String.◌∷◌ c (String.◌∷◌ d s)) =
    code c == b'0' && (code d == b'x' && is_lower_hex_text n s)
is_canonical n _ = false

data LowerHex (c : Char) : Type 0 where
  lower_hex : is_lower_hex c ≡ true → LowerHex c

is_lower_hex_of : {c : Char} → LowerHex c → is_lower_hex c ≡ true
is_lower_hex_of (lower_hex h) = h

-- one step of the chain of tests in `lower_digit`
letter_or :
    (b : Bool) {x y : Char} → LowerHex x → (b ≡ false → LowerHex y) → LowerHex (if b then x else y)
letter_or true h k = h
letter_or false h k = k refl

lower_digit-is_lower_hex : (c : Char) → is_hex c ≡ true → is_lower_hex (lower_digit c) ≡ true
lower_digit-is_lower_hex c h = is_lower_hex_of (
    letter_or (code c == b'A') (lower_hex refl) λ n₁.
      letter_or (code c == b'B') (lower_hex refl) λ n₂.
        letter_or (code c == b'C') (lower_hex refl) λ n₃.
          letter_or (code c == b'D') (lower_hex refl) λ n₄.
            letter_or (code c == b'E') (lower_hex refl) λ n₅.
              letter_or (code c == b'F') (lower_hex refl)
                λ n₆. let itself : LowerHex c = lower_hex (ground arith) in itself)

lower-is_lower_hex :
    (n : ℕ) (s : String) → is_hex_text n s ≡ true → is_lower_hex_text n (lower s) ≡ true
lower-is_lower_hex zero String.[] h = refl
lower-is_lower_hex zero (String.◌∷◌ c s) h = h
lower-is_lower_hex (suc n) String.[] h = h
lower-is_lower_hex (suc n) (String.◌∷◌ c s) h =
    ground (arith, lower_digit-is_lower_hex c, lower-is_lower_hex n s)

pub lower-is_canonical :
    (n : ℕ) (s : String) → is_prefixed n s ≡ true → is_canonical n (lower s) ≡ true
lower-is_canonical n String.[] h = h
lower-is_canonical n (String.◌∷◌ c String.[]) h = h
lower-is_canonical n (String.◌∷◌ c (String.◌∷◌ d s)) h = ground (arith, lower-is_lower_hex n s)

append-0x : (t : String) → str_append "0x" t ≡ String.◌∷◌ "0" (String.◌∷◌ "x" t)
append-0x t =
    append.cons "0" "x" t
    ∙ ap (String.◌∷◌ "0") (append.cons "x" "" t ∙ ap (String.◌∷◌ "x") (append.nil t))

pub prefixed-is_canonical :
    (raw : String)
    → is_hex_text 64 raw ≡ true
    → is_canonical 64 (str_append "0x" (lower raw)) ≡ true
prefixed-is_canonical raw h = rw (append-0x (lower raw)) (lower-is_lower_hex 64 raw h)
