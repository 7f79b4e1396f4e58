-- ===== src/Json/Write.antt =====
-- The server's writer over its buffer, and the block that the progress module allocates.
use ferretptimize.Common.{
  ℕ, ◌+◌, ◌*◌, ◌^◌, ◌≤◌, ◌<◌, ◌≡◌, ◌∙◌, ap, ◌⊎◌, ◌↔◌, inl, inr, refl, Bool, true, false, ◌&&◌, ◌||◌,
  not, [], ◌∷◌, ◌++◌, Option, none, some, ◌>>=◌, ltb, ◌==◌, if◌then◌else◌, length, length-append,
  arith, append_assoc, append-nil,
}
use mathlib.Core.Option.{some_inj}
use ferretptimize.Common.Bytes.{Bytes, or_empty}
use ferretptimize.Buffer.{Buffer, append, append_char}
use ferretptimize.Buffer.Append.{IsValid, append_lem}
use ferretptimize.Json.{
  quote, backslash, escape_byte, escape_all, progress_text, measured, progress_escape,
  append_escaped, append_json_string,
}
use ferretptimize.Json.Read.{read_string, read-progress_text}

-- The outcome of a series of appends that are to add `text`.
abbrev pub Appended : (ℕ → Bool) → Buffer → Bytes → Option Buffer → Type 0
Appended grants b text out =
    ((r : Buffer) × (out ≡ some r) × (r.bytes ≡ b.bytes ++ text) × IsValid r)
    ⊎ ((out ≡ none) × (n : ℕ) × (grants n ≡ false))

append-Appended :
    (grants : ℕ → Bool) (b : Buffer) (text : Bytes)
    → IsValid b
    → length b.bytes + length text < 2 ^ 63
    → Appended grants b text (append grants b text)
append-Appended grants b text v h = elim (append_lem grants b text v h) [
  | inl (r, e, same, room, _) ↦ inl (r, e, same, inr room)
  | inr refused ↦ inr refused
]

length-escape_byte : (c : ℕ) → length (escape_byte c) ≤ 6
unfolding escape_byte
length-escape_byte c = ground arith

-- Two series of appends, one after the other.
Appended-bind :
    (grants : ℕ → Bool) (b : Buffer) (first second : Bytes) (m : Option Buffer)
    (f : Buffer → Option Buffer)
    → Appended grants b first m
    → ((r : Buffer) → r.bytes ≡ b.bytes ++ first → IsValid r → Appended grants r second (f r))
    → Appended grants b (first ++ second) (m >>= f)
Appended-bind grants b first second none f (inl (r, e, same, v)) k = cc
Appended-bind grants b first second none f (inr refused) k = inr refused
Appended-bind grants b first second (some b') f (inr (e, n, refused)) k = cc
Appended-bind grants b first second (some b') f (inl (r, e, same, v)) k =
    rw (some_inj.0 e) (join (f r) (k r same v))
  where
    join : (o : Option Buffer) → Appended grants r second o → Appended grants b (first ++ second) o
    join o (inl (s, es, ss, vs)) = inl (s, es, ss ∙ rw (same, append_assoc), vs)
    join o (inr refused) = inr refused

append_escaped-Appended :
    (grants : ℕ → Bool) (b : Buffer) (value : Bytes)
    → IsValid b
    → length b.bytes + 6 * length value < 2 ^ 63
    → Appended grants b (escape_all value) (append_escaped grants b value)
unfolding append_escaped escape_all
append_escaped-Appended grants b [] v h = inl (b, refl, rw append-nil, v)
append_escaped-Appended grants b (c ∷ value) v h =
    Appended-bind grants b (escape_byte c) (escape_all value) (append grants b (escape_byte c))
      (λ r. append_escaped grants r value)
      (append-Appended grants b (escape_byte c) v (omega (arith, length-escape_byte c)))
      λ r same v'.
        append_escaped-Appended grants r value v' (
          omega
            (arith, ap length same, length-append b.bytes (escape_byte c), length-escape_byte c))

length-escape_all : (value : Bytes) → length (escape_all value) ≤ 6 * length value
unfolding escape_all
length-escape_all [] = omega arith
length-escape_all (c ∷ value) = omega (
  arith,
  length-append (escape_byte c) (escape_all value),
  length-escape_byte c,
  length-escape_all value,
)

append_json_string-Appended :
    (grants : ℕ → Bool) (b : Buffer) (value : Option Bytes)
    → IsValid b
    → length b.bytes + 6 * length (or_empty value) + 2 < 2 ^ 63
    → Appended grants b (progress_text (or_empty value)) (append_json_string grants b value)
unfolding append_json_string append_char progress_text
append_json_string-Appended grants b value v h =
    let s = or_empty value in
    Appended-bind grants b (quote ∷ []) (escape_all s ++ quote ∷ []) _ _
      (append-Appended grants b (quote ∷ []) v (omega arith))
      λ r same v'.
        let lr : length r.bytes ≡ length b.bytes + 1 =
          ap length same ∙ length-append b.bytes (quote ∷ []) in
        Appended-bind grants r (escape_all s) (quote ∷ []) _ _
          (append_escaped-Appended grants r s v' (omega arith))
          λ r' same' v''. append-Appended grants r' (quote ∷ []) v'' (
            omega
              (arith, ap length same', length-append r.bytes (escape_all s), length-escape_all s))

-- The server's writer appends a JSON string literal from which a JSON reader gets the value back,
-- and leaves a valid buffer; or it fails because the allocator refused a block. A NULL is written
-- as the empty string.
pub read-append_json_string :
    (grants : ℕ → Bool) (b : Buffer) (value : Option Bytes)
    → IsValid b
    → length b.bytes + 6 * length (or_empty value) + 2 < 2 ^ 63
    → ((r : Buffer) × (literal : Bytes) × (append_json_string grants b value ≡ some r)
        × (r.bytes ≡ b.bytes ++ literal)
        × ((rest : Bytes) → read_string (literal ++ rest) ≡ some (or_empty value, rest))
        × IsValid r)
      ⊎ ((append_json_string grants b value ≡ none) × (n : ℕ) × (grants n ≡ false))
read-append_json_string grants b value v h = elim (append_json_string-Appended grants b value v h) [
  | inl (r, e, same, v') ↦
      inl (r, progress_text (or_empty value), e, same, read-progress_text (or_empty value), v')
  | inr refused ↦ inr refused
]

-- The control bytes that the progress module writes as six bytes and measures as two.
unfoldable pub hidden : Bytes → ℕ
hidden [] = 0
hidden (c ∷ s) =
    (if ltb c 0x20 && not (c == 9) && not (c == 10) && not (c == 13) then 1 else 0) + hidden s

length-escape-measured :
    (value : Bytes) → length (escape_all value) ≡ measured value + 4 * hidden value
unfolding escape_all measured hidden
length-escape-measured [] = refl
length-escape-measured (c ∷ value) =
    omega
      (arith, length-append (escape_byte c) (escape_all value), one, length-escape-measured value)
  where
    one :
        length (escape_byte c)
        ≡ (if c == quote || c == backslash || ltb c 0x20 then 2 else 1)
          + 4 * (if ltb c 0x20 && not (c == 9) && not (c == 10) && not (c == 13) then 1 else 0)
    one = unfold escape_byte in ground arith

-- `fp_progress_json_escape` writes, with the closing NUL, exactly four bytes beyond its block for
-- each byte below 0x20 other than a tab, a line feed and a carriage return; so the text stays
-- inside the block exactly when the value has no such byte.
pub progress_escape_block :
    (value : Option Bytes) (size : ℕ) (out : Bytes)
    → progress_escape true value ≡ some (size, out)
    → (length out ≡ size + 4 * hidden (or_empty value))
      × ((length out ≤ size) ↔ (hidden (or_empty value) ≡ 0))
unfolding progress_escape progress_text
progress_escape_block value size out e =
    let s = or_empty value in
    let written : length out ≡ size + 4 * hidden s = ground (
      arith,
      length-escape-measured s,
      length-append (quote ∷ (escape_all s ++ quote ∷ [])) (0 ∷ []),
      length-append (escape_all s) (quote ∷ []),
    ) in
    (written, ((λ h. omega arith), (λ h. omega arith)))
