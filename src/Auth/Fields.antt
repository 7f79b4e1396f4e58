-- ===== src/Auth/Fields.antt =====
-- The JSON readers of src/auth.c, `fp_json_parse_int64` and `fp_json_parse_string`, and what they use of
-- string.h and stdlib.h.
use ferretptimize.Common.{
  ℕ, zero, suc, ◌+◌, ◌-◌, ◌*◌, ◌^◌, Bool, false, not, ◌||◌, Option, none, some, [], ◌∷◌, ◌++◌, ltb,
  ◌==◌, if◌then◌else◌,
}
use ferretptimize.Common.Int.{ℤ, pos, negsuc}
use ferretptimize.Common.Bytes.{Bytes, is_space, is_digit, has_prefix}

-- `strstr` and `strchr`: the text from the first match on.
unfoldable pub find_text : Bytes → Bytes → Option Bytes
find_text needle [] = if has_prefix needle [] then some [] else none
find_text needle (c ∷ s) =
    let later = find_text needle s in if has_prefix needle (c ∷ s) then some (c ∷ s) else later

unfoldable pub find_byte : ℕ → Bytes → Option Bytes
find_byte b [] = none
find_byte b (c ∷ s) = let later = find_byte b s in if c == b then some (c ∷ s) else later

unfoldable pub skip_spaces : Bytes → Bytes
skip_spaces [] = []
skip_spaces (c ∷ s) = let rest = skip_spaces s in if is_space c then rest else c ∷ s

abbrev pub rest_of : Bytes → Bytes
rest_of [] = []
rest_of (c ∷ s) = s

-- The digits at the start of the text, as a number that follows `value`.
unfoldable pub read_digits : ℕ → Bytes → ℕ
read_digits value [] = value
read_digits value (c ∷ s) =
    let more = read_digits (value * 10 + (c - b'0')) s in if is_digit c then more else value

abbrev pub starts_with_digit : Bytes → Bool
starts_with_digit [] = false
starts_with_digit (c ∷ s) = is_digit c

-- `strtoll` in base 10 on a text without white space before it, none where it reads no number; it
-- stops at the ends of `long long`.
unfoldable pub read_int64 : Bytes → Option ℤ
read_int64 [] = none
read_int64 (c ∷ s) =
    let number = if c == b'-' || c == b'+' then s else c ∷ s in
    let value = read_digits 0 number in
    let up = if ltb value (2 ^ 63) then value else 2 ^ 63 - 1 in
    let down = if ltb value (2 ^ 63) then value else 2 ^ 63 in
    if not (starts_with_digit number)
    then none
    else if c == b'-'
    then some (if down == 0 then pos 0 else negsuc (down - 1))
    else some (pos up)

-- What a JSON reader returns: 0, -1, or a value.
pub data Field (A : Type 0) : Type 0 where
  absent : Field A
  malformed : Field A
  got : A → Field A

abbrev pub quoted : Bytes → Bytes
quoted key = b'"' ∷ (key ++ (b'"' ∷ []))

-- `fp_json_parse_int64` for a key of less than 62 bytes.
unfoldable pub json_parse_int64 : Bytes → Bytes → Field ℤ
json_parse_int64 json key = elim (find_text (quoted key) json) [
  | none ↦ absent
  | some loc ↦ elim (find_byte b':' loc) [
    | none ↦ malformed
    | some colon ↦ elim (read_int64 (skip_spaces (rest_of colon))) [
      | none ↦ malformed
      | some value ↦ got value
    ]
  ]
]

abbrev is_blank : ℕ → Bool
is_blank c = c == b' ' || c == 9 || c == 10

unfoldable pub skip_blanks : Bytes → Bytes
skip_blanks [] = []
skip_blanks (c ∷ s) = let rest = skip_blanks s in if is_blank c then rest else c ∷ s

-- The loop of `fp_json_parse_string`, with room for `room` more bytes.
unfoldable pub unescape : ℕ → Bytes → Bytes
unescape zero s = []
unescape (suc room) [] = []
unescape (suc room) (c ∷ []) = if c == b'"' then [] else c ∷ []
unescape (suc room) (c ∷ d ∷ s) =
    let plain = unescape room (d ∷ s) in
    let after = unescape room s in
    if c == b'"' then [] else if c == b'\\' then d ∷ after else c ∷ plain

-- `fp_json_parse_string`: what `out` holds when it is written. It returns 1, or 0 if that is empty.
unfoldable pub json_parse_string : Bytes → Bytes → ℕ → Field Bytes
json_parse_string json key out_len = elim (find_text (quoted key) json) [
  | none ↦ absent
  | some loc ↦ elim (find_byte b':' loc) [
    | none ↦ malformed
    | some colon ↦ elim (skip_blanks (rest_of colon)) [
      | [] ↦ malformed
      | c ∷ s ↦ if c == b'"' then got (unescape (out_len - 1) s) else malformed
    ]
  ]
]

abbrev pub text_or_empty : Field Bytes → Bytes
text_or_empty (got text) = text
text_or_empty _ = []
