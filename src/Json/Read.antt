-- ===== src/Json/Read.antt =====
-- A reader of JSON strings after RFC 8259, independent of the writers, and what it makes of the
-- text that they write.
use ferretptimize.Common.{
  ℕ, ◌+◌, ◌-◌, ◌*◌, ◌/◌, ◌%◌, ◌<◌, ◌≡◌, refl, true, false, ◌&&◌, ◌||◌, [], ◌∷◌, ◌++◌, Option, none,
  some, ltb, leb, ◌==◌, if◌then◌else◌, arith, append_assoc,
}
use ferretptimize.Common.Bytes.{Bytes}
use ferretptimize.Common.Bounded.{holds_on, holds_on_lem}
use ferretptimize.Json.{quote, backslash, hex_digit, escape_byte, escape_all, progress_text}

-- Inside a string: between characters, behind a backslash, or inside the digits behind `\u`, with
-- the value so far and the digits that follow the next one.
pub data Mode : Type 0 where
  plain escaped : Mode
  hex : (n more : ℕ) → Mode

pub hex_value : ℕ → Option ℕ
hex_value c =
    if leb b'0' c && leb c b'9'
    then some (c - b'0')
    else if leb b'a' c && leb c b'f'
    then some (c - b'a' + 10)
    else if leb b'A' c && leb c b'F'
    then some (c - b'A' + 10)
    else none

-- The character that a backslash and `c` stand for.
pub short_escape : ℕ → Option ℕ
short_escape c =
    if c == quote || c == backslash || c == b'/'
    then some c
    else if c == b'n'
    then some 10
    else if c == b'r'
    then some 13
    else if c == b't'
    then some 9
    else if c == b'b'
    then some 8
    else if c == b'f'
    then some 12
    else none

abbrev prefixed : ℕ → Option (Bytes × Bytes) → Option (Bytes × Bytes)
prefixed c none = none
prefixed c (some (s, rest)) = some (c ∷ s, rest)

-- The characters up to the closing quote, and what follows it.
pub read_body : Mode → Bytes → Option (Bytes × Bytes)
read_body m [] = none
read_body plain (c ∷ s) =
    let esc = read_body escaped s in
    let next = read_body plain s in
    if c == quote
    then some ([], s)
    else if c == backslash
    then esc
    else if ltb c 0x20
    then none
    else prefixed c next
read_body escaped (c ∷ s) =
    let digits = read_body (hex 0 3) s in
    let next = read_body plain s in
    if c == b'u' then digits else elim (short_escape c) [ some d ↦ prefixed d next | none ↦ none ]
read_body (hex n more) (c ∷ s) = elim (hex_value c) [
  | some d ↦
      if more == 0
      then prefixed (n * 16 + d) (read_body plain s)
      else read_body (hex (n * 16 + d) (more - 1)) s
  | none ↦ none
]

unfoldable pub read_string : Bytes → Option (Bytes × Bytes)
unfolding read_body short_escape hex_value
read_string [] = none
read_string (c ∷ s) = if c == quote then read_body plain s else none

hex_table :
    holds_on 0 16 (λ n. elim (hex_value (hex_digit n)) [ some d ↦ d == n | none ↦ false ]) ≡ true
unfolding holds_on hex_value hex_digit
hex_table = refl

hex_value-hex_digit : (n : ℕ) → n < 16 → hex_value (hex_digit n) ≡ some n
hex_value-hex_digit n h =
    ground (arith, holds_on_lem 0 16 _ n hex_table (omega arith) (omega arith))

read-escape_byte :
    (c : ℕ) (s : Bytes) → read_body plain (escape_byte c ++ s) ≡ prefixed c (read_body plain s)
unfolding read_body escape_byte short_escape
read-escape_byte c s =
    ground (arith, hex_value-hex_digit (c / 16 % 16), hex_value-hex_digit (c % 16), hex0)
  where
    hex0 : hex_value b'0' ≡ some 0
    hex0 = unfold hex_value in refl

read-escape_all :
    (value s : Bytes) → read_body plain (escape_all value ++ (quote ∷ s)) ≡ some (value, s)
unfolding escape_all
read-escape_all [] s = unfold read_body in refl
read-escape_all (c ∷ value) s = rw (append_assoc, read-escape_byte, read-escape_all value s)

pub read-progress_text :
    (value s : Bytes) → read_string (progress_text value ++ s) ≡ some (value, s)
unfolding read_string progress_text
read-progress_text value s = rw append_assoc (read-escape_all value s)
