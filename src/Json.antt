-- ===== src/Json.antt =====
-- Writing JSON strings: `fp_buffer_append_json_string` of src/server.c, `fp_progress_json_escape`
-- of src/progress.c and `fp_auth_escape_json` of src/auth.c.
pub mod Read
pub mod Write
pub mod Cut
mod Tests
use ferretptimize.Common.{
  ℕ, zero, suc, ◌+◌, ◌-◌, ◌/◌, ◌%◌, Bool, true, false, ◌||◌, List, [], ◌∷◌, ◌++◌, Option, none,
  some, ◌>>=◌, ltb, leb, ◌==◌, if◌then◌else◌, get_or, length,
}
use ferretptimize.Common.Bytes.{Bytes, codes, or_empty}
use ferretptimize.Buffer.{Buffer, append, append_char}

abbrev pub quote : ℕ
quote = b'"'

abbrev pub backslash : ℕ
backslash = b'\\'

-- `hex[]`, and the digits of `%04x`.
pub hex_digit : ℕ → ℕ
hex_digit n = get_or (codes "0123456789abcdef") n 0

-- What one byte becomes: the branches of the `switch`, the same in both files.
unfoldable pub escape_byte : ℕ → Bytes
escape_byte c =
    if c == quote
    then backslash ∷ quote ∷ []
    else if c == backslash
    then backslash ∷ backslash ∷ []
    else if c == 10
    then backslash ∷ b'n' ∷ []
    else if c == 13
    then backslash ∷ b'r' ∷ []
    else if c == 9
    then backslash ∷ b't' ∷ []
    else if ltb c 0x20
    then backslash ∷ b'u' ∷ b'0' ∷ b'0' ∷ hex_digit (c / 16 % 16) ∷ hex_digit (c % 16) ∷ []
    else c ∷ []

unfoldable pub escape_all : Bytes → Bytes
escape_all [] = []
escape_all (c ∷ s) = escape_byte c ++ escape_all s

-- The text that `fp_progress_json_escape` writes, less its NUL.
unfoldable pub progress_text : Bytes → Bytes
progress_text value = quote ∷ (escape_all value ++ quote ∷ [])

-- Its first loop, which measures.
unfoldable pub measured : Bytes → ℕ
measured [] = 0
measured (c ∷ s) = (if c == quote || c == backslash || ltb c 0x20 then 2 else 1) + measured s

-- `malloc(len + 3)`.
abbrev pub allocated : Bytes → ℕ
allocated value = measured value + 3

-- `fp_progress_json_escape`: the block's size and the text with its NUL, where NULL counts as "".
pub progress_escape : Bool → Option Bytes → Option (ℕ × Bytes)
progress_escape out_ok value =
    let s = or_empty value in if out_ok then some (allocated s, progress_text s ++ 0 ∷ []) else none

module _ (grants : ℕ → Bool) where
  -- The loop of `fp_buffer_append_json_string`, which stops at the first failed append.
  unfoldable pub append_escaped : Buffer → Bytes → Option Buffer
  append_escaped b [] = some b
  append_escaped b (c ∷ s) = do b' ← append grants b (escape_byte c); append_escaped b' s

  unfoldable pub append_json_string : Buffer → Option Bytes → Option Buffer
  append_json_string b value = do
    b' ← append_char grants b quote
    b'' ← append_escaped b' (or_empty value)
    append_char grants b'' quote

-- What one byte becomes in `fp_auth_escape_json`, which leaves other control bytes as they are.
unfoldable pub auth_escape_byte : ℕ → Bytes
auth_escape_byte c =
    if c == quote || c == backslash
    then backslash ∷ c ∷ []
    else if c == 10
    then backslash ∷ b'n' ∷ []
    else if c == 13
    then backslash ∷ b'r' ∷ []
    else if c == 9
    then backslash ∷ b't' ∷ []
    else c ∷ []

-- Its loop: `idx` bytes are written, and the loop goes on while two more and the NUL fit.
unfoldable pub auth_escape_from : ℕ → ℕ → Bytes → Bytes
auth_escape_from out_len idx [] = []
auth_escape_from out_len idx (c ∷ s) =
    let e = auth_escape_byte c in
    let rest = auth_escape_from out_len (idx + length e) s in
    if ltb (idx + 2) out_len
    then (if leb out_len (idx + length e + 1) then e else e ++ rest)
    else []

-- `fp_auth_escape_json`: what `out` holds before its NUL; none if it has no room for one.
unfoldable pub auth_escape : ℕ → Option Bytes → Option Bytes
auth_escape out_len value =
    if out_len == 0 then none else some (auth_escape_from out_len 0 (or_empty value))
