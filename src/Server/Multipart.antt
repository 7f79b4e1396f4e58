-- ===== src/Server/Multipart.antt =====
-- `fp_parse_multipart` of src/server.c, with its allocations granted. A piece of the body is the text
-- from there on.
pub mod Search
pub mod RoundTrip
pub mod Lines
pub mod Forms
pub mod Fuel
mod Tests
use ferretptimize.Common.{
  ℕ, zero, suc, ◌+◌, ◌-◌, ◌%◌, ◌^◌, Bool, true, false, not, ◌&&◌, ◌||◌, Option, none, some, List,
  [], ◌∷◌, ◌++◌, leb, ltb, ◌==◌, if◌then◌else◌, length, take, drop,
}
use ferretptimize.Common.Bytes.{Bytes, codes, has_prefix, case_eq, or_empty}
use ferretptimize.Auth.Fields.{find_text, find_byte}
use ferretptimize.Auth.Token.{c_string}

-- `fp_form_part`: its data are the first `size` bytes from where they start.
pub record FormPart : Type 0 where
  pub name : Bytes
  pub filename : Bytes
  pub content_type : Bytes
  pub content : Bytes
  pub size : ℕ

-- `fp_memsearch` for a needle that is not empty: the text before the first match, and from it on.
unfoldable pub memsearch : Bytes → Bytes → Option (Bytes × Bytes)
memsearch needle [] = none
memsearch needle (c ∷ s) =
    let later : Option (Bytes × Bytes) = elim (memsearch needle s) [
      | none ↦ none
      | some (before, at) ↦ some (c ∷ before, at)
    ] in
    if has_prefix needle (c ∷ s) then some ([], c ∷ s) else later

-- `boundary_line`.
abbrev pub boundary_line : Bytes → Bytes
boundary_line boundary = take 127 (b'-' ∷ b'-' ∷ boundary)

abbrev pub crlf : Bytes
crlf = 13 ∷ 10 ∷ []

abbrev pub blank_line : Bytes
blank_line = 13 ∷ 10 ∷ 13 ∷ 10 ∷ []

abbrev token_of : Bytes → List Bytes
token_of [] = []
token_of (c ∷ s) = (c ∷ s) ∷ []

-- `strtok_r(..., "\r\n", ...)`: the lines that are not empty, after the start of the first.
unfoldable pub line_tokens : Bytes → Bytes → List Bytes
line_tokens start [] = token_of start
line_tokens start (c ∷ s) =
    let longer = line_tokens (start ++ (c ∷ [])) s in
    let others = line_tokens [] s in if c == 13 || c == 10 then token_of start ++ others else longer

-- What stands before the next `b`.
unfoldable pub until : ℕ → Bytes → Option Bytes
until b [] = none
until b (c ∷ s) =
    let later : Option Bytes = elim (until b s) [ none ↦ none | some text ↦ some (c ∷ text) ] in
    if c == b then some [] else later

-- A value in quotes behind `key`, cut to a block of `size` bytes; else the value before.
unfoldable pub quoted_value : Bytes → Bytes → ℕ → Bytes → Bytes
quoted_value key line size before = elim (find_text key line) as (λ o. Bytes) [
  | none ↦ before
  | some at ↦ elim (until b'"' (drop (length key) at)) as (λ o. Bytes) [
    | none ↦ before
    | some value ↦ take (size - 1) value
  ]
]

abbrev is_named : Bytes → Bytes → Bool
is_named line key = case_eq (take (length key) line) key

unfoldable pub skip_tabs : Bytes → Bytes
skip_tabs [] = []
skip_tabs (c ∷ s) = let rest = skip_tabs s in if c == b' ' || c == 9 then rest else c ∷ s

-- `FP_FILENAME_MAX`.
abbrev pub filename_max : ℕ
filename_max = 256

-- The body of the loop over the lines.
unfoldable pub line_step : FormPart → Bytes → FormPart
line_step part line =
    let disposed : FormPart = record {
      name = quoted_value (codes "name=\"") line 64 part.name;
      filename = quoted_value (codes "filename=\"") line filename_max part.filename;
      content_type = part.content_type;
      content = part.content;
      size = part.size;
    } in
    let typed : FormPart = record {
      name = part.name;
      filename = part.filename;
      content_type = elim (find_byte b':' line) as (λ o. Bytes) [
        | none ↦ part.content_type
        | some colon ↦ take 127 (skip_tabs (drop 1 colon))
      ];
      content = part.content;
      size = part.size;
    } in
    if is_named line (codes "content-disposition")
    then disposed
    else if is_named line (codes "content-type")
    then typed
    else part

unfoldable pub line_loop : FormPart → List Bytes → FormPart
line_loop part [] = part
line_loop part (line ∷ lines) = line_loop (line_step part line) lines

unfoldable pub part_of : Bytes → Bytes → ℕ → FormPart
part_of header data_start size =
    line_loop
      (record {
        name = [];
        filename = [];
        content_type = [];
        content = take size data_start;
        size = size;
      })
      (line_tokens [] (c_string header))

-- Whether the two bytes at the end are CR and LF.
unfoldable pub ends_crlf : Bytes → Bool
ends_crlf [] = false
ends_crlf (a ∷ []) = false
ends_crlf (a ∷ b ∷ []) = a == 13 && b == 10
ends_crlf (a ∷ b ∷ c ∷ s) = ends_crlf (b ∷ c ∷ s)

-- `(size_t)(next_boundary - data_start - 2)`.
abbrev pub part_size : Bytes → ℕ
part_size content = (2 ^ 64 + length content - 2) % 2 ^ 64

-- How a round of the `while` loop ends: with the last boundary, with an error, or with a part and the
-- boundary behind it.
pub data Round : Type 0 where
  finished : Round
  rejected : Round
  found : FormPart → Bytes → Round

unfoldable pub read_content : Bytes → Bytes → Bytes → Round
read_content line header data_start = elim (memsearch line data_start) [
  | none ↦ rejected
  | some (content, next) ↦
      if ends_crlf (blank_line ++ content)
      then found (part_of header data_start (part_size content)) next
      else rejected
]

unfoldable pub read_header : Bytes → Bytes → Round
read_header line header_start = elim (memsearch blank_line header_start) [
  | none ↦ rejected
  | some (header, header_end) ↦ read_content line header (drop 4 header_end)
]

unfoldable pub read_marker : Bytes → Bytes → Round
read_marker line marker =
    if has_prefix (codes "--") marker
    then finished
    else if not (has_prefix crlf marker)
    then rejected
    else read_header line (drop 2 marker)

unfoldable pub read_round : Bytes → Bytes → Round
read_round line cursor = elim (memsearch line cursor) [
  | none ↦ finished
  | some (before, at) ↦ read_marker line (drop (length line) at)
]

abbrev is_kept : FormPart → ℕ → Bool
is_kept part room = not (length part.name == 0) && not (room == 0)

abbrev with_part : FormPart → ℕ → Option (List FormPart) → Option (List FormPart)
with_part part room none = none
with_part part room (some parts) = some (if is_kept part room then part ∷ parts else parts)

-- The `while` loop with room for `room` more parts, for `fuel` rounds at most.
unfoldable pub parse_from : ℕ → Bytes → ℕ → Bytes → Option (List FormPart)
parse_from zero line room cursor = none
parse_from (suc fuel) line room cursor = elim (read_round line cursor) [
  | finished ↦ some []
  | rejected ↦ none
  | found part next ↦
      with_part part room (parse_from fuel line (if is_kept part room then room - 1 else room) next)
]

-- `fp_parse_multipart`; each round but the last passes over a boundary line.
unfoldable pub parse_multipart : Bytes → Bytes → ℕ → Option (List FormPart)
parse_multipart body boundary max_parts =
    let parts = parse_from (suc (length body)) (boundary_line boundary) max_parts body in
    if max_parts == 0 then none else parts
