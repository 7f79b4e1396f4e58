-- ===== src/Server/Multipart/RoundTrip.antt =====
-- A body made of parts, as RFC 2046 has it, read by `fp_parse_multipart` of src/server.c.
use ferretptimize.Common.{
  ℕ, zero, suc, ◌-◌, ◌^◌, ◌≤◌, ◌<◌, ◌≡◌, ◌∙◌, refl, sym, ap, Bool, true, false, some, List, [], ◌∷◌,
  ◌++◌, map, append_assoc, ◌==◌, if◌then◌else◌, length, length-append, take, take-all, take-append,
  drop-append, All, arith,
}
use ferretptimize.Common.Bytes.{Bytes, codes, has_prefix}
use ferretptimize.Auth.Token.{c_string}
use ferretptimize.Server.Multipart.{
  FormPart, memsearch, boundary_line, crlf, blank_line, line_tokens, line_loop, part_of, ends_crlf,
  part_size, is_kept, found, read_content, read_header, read_marker, read_round, parse_from,
  parse_multipart,
}
use ferretptimize.Server.Multipart.Search.{IsFree, memsearch-IsFree, has_prefix_self}

-- A part as it is sent: its header lines and its content.
pub record RawPart : Type 0 where
  pub header : Bytes
  pub content : Bytes

-- What stands behind a boundary line: the parts, and two dashes behind the last one.
unfoldable pub after_line : Bytes → List RawPart → Bytes
after_line line [] = codes "--"
after_line line (p ∷ parts) =
    crlf ++ (p.header ++ (blank_line ++ (p.content ++ (crlf ++ (line ++ after_line line parts)))))

abbrev pub read_part : RawPart → FormPart
read_part p = part_of p.header p.content (length p.content)

-- The header ends at its blank line, the content at the boundary, and the part has a name.
pub record IsSendable (line : Bytes) (p : RawPart) : Type 0 where
  pub header : IsFree blank_line p.header
  pub content : IsFree line (p.content ++ crlf)
  pub size : length p.content < 2 ^ 64
  pub named : 0 < length (read_part p).name

memsearch-here :
    (c : ℕ) (needle rest : Bytes)
    → memsearch (c ∷ needle) ((c ∷ needle) ++ rest) ≡ some ([], (c ∷ needle) ++ rest)
unfolding memsearch
memsearch-here c needle rest = let here = has_prefix_self (c ∷ needle) rest in rw here refl

part_of-take :
    (header s t : Bytes) (n : ℕ) → take n s ≡ take n t → part_of header s n ≡ part_of header t n
unfolding part_of
part_of-take header s t n e =
    ap
      (λ (content : Bytes).
        line_loop
          (record { name = []; filename = []; content_type = []; content = content; size = n })
          (line_tokens [] (c_string header)))
      e

ends_crlf-cons : (a : ℕ) (s : Bytes) → ends_crlf (a ∷ (s ++ crlf)) ≡ ends_crlf (s ++ crlf)
unfolding ends_crlf
ends_crlf-cons a [] = refl
ends_crlf-cons a (b ∷ []) = refl
ends_crlf-cons a (b ∷ c ∷ s) = refl

ends_crlf-append : (s : Bytes) → ends_crlf (s ++ crlf) ≡ true
unfolding ends_crlf
ends_crlf-append [] = refl
ends_crlf-append (a ∷ s) = ends_crlf-cons a s ∙ ends_crlf-append s

part_size-crlf :
    (content : Bytes) → length content < 2 ^ 64 → part_size (content ++ crlf) ≡ length content
part_size-crlf content h = omega (arith, length-append content crlf, h)

read_part-slice :
    (p : RawPart) (rest : Bytes)
    → length p.content < 2 ^ 64
    → part_of p.header (p.content ++ rest) (part_size (p.content ++ crlf)) ≡ read_part p
read_part-slice p rest h =
    let size = part_size-crlf p.content h in
    ap (λ (n : ℕ). part_of p.header (p.content ++ rest) n) size
    ∙ part_of-take p.header (p.content ++ rest) p.content (length p.content) (
        take-append p.content rest (length p.content) refl
        ∙ sym (take-all (length p.content) p.content (omega arith)))

read_round-line :
    (l rest : Bytes) → read_round (b'-' ∷ l) ((b'-' ∷ l) ++ rest) ≡ read_marker (b'-' ∷ l) rest
unfolding read_round
read_round-line l rest =
    let line = b'-' ∷ l in
    rw (read_round, memsearch-here b'-' l rest)
      (ap (read_marker line) (drop-append line rest (length line) refl))

read_header-part :
    (l : Bytes) (p : RawPart) (rest : Bytes)
    → let line = b'-' ∷ l in
      IsSendable line p
      → read_header line (p.header ++ (blank_line ++ (p.content ++ (crlf ++ (line ++ rest)))))
        ≡ found (read_part p) (line ++ rest)
unfolding read_header read_content
read_header-part l p rest h =
    let line = b'-' ∷ l in
    let next = line ++ rest in
    let data_start = p.content ++ (crlf ++ next) in
    let content : memsearch line data_start ≡ some (p.content ++ crlf, next) =
      ap (memsearch line) (sym (append_assoc p.content crlf next))
      ∙ memsearch-IsFree b'-' l (p.content ++ crlf) rest h.content in
    let ends : ends_crlf (blank_line ++ (p.content ++ crlf)) ≡ true =
      ends_crlf-append (blank_line ++ p.content) in
    let part = read_part-slice p (crlf ++ next) h.size in
    rw (read_header, memsearch-IsFree 13 (10 ∷ 13 ∷ 10 ∷ []) p.header data_start h.header)
      (rw (read_content, content, ends, part) refl)

parse_from-parts :
    (l : Bytes) (parts : List RawPart) (fuel room : ℕ)
    → let line = b'-' ∷ l in
      All (IsSendable line) parts
      → length parts < fuel
      → length parts ≤ room
      → parse_from fuel line room (line ++ after_line line parts) ≡ some (map read_part parts)
unfolding parse_from after_line has_prefix read_marker
parse_from-parts l parts zero room h enough fits = absurd (omega arith)
parse_from-parts l [] (suc fuel) room h enough fits =
    let round = read_round-line l (codes "--") in rw (parse_from, round) refl
parse_from-parts l (p ∷ parts) (suc fuel) room h enough fits =
    let line = b'-' ∷ l in
    let round : read_round line (line ++ after_line line (p ∷ parts))
        ≡ found (read_part p) (line ++ after_line line parts) =
      read_round-line l (after_line line (p ∷ parts))
      ∙ read_header-part l p (after_line line parts) h.0 in
    let kept : is_kept (read_part p) room ≡ true = ground (arith, h.0.named, fits) in
    let rest =
      parse_from-parts l parts fuel (room - 1) h.1 (omega (arith, enough)) (omega (arith, fits)) in
    rw (parse_from, round, kept, rest)
      (ap
        (λ (b : Bool). some (if b then read_part p ∷ map read_part parts else map read_part parts))
        kept)

-- What comes behind the boundary is at least as long as the parts are many.
length-after_line :
    (line : Bytes) (parts : List RawPart) → length parts ≤ length (after_line line parts)
unfolding after_line
length-after_line line [] = omega arith
length-after_line line (p ∷ parts) = omega (
  arith,
  length-append p.header (blank_line ++ (p.content ++ (crlf ++ (line ++ after_line line parts)))),
  length-append p.content (crlf ++ (line ++ after_line line parts)),
  length-append line (after_line line parts),
  length-after_line line parts,
)

-- Parts that are sent are read back, in order, each with its name, its content and its size, if there
-- is room for them: the boundary, cut to 127 bytes with its dashes, must not begin in a content, the
-- header must end at its first blank line, and it must name the part.
pub parse_multipart-parts :
    (boundary : Bytes) (parts : List RawPart) (max_parts : ℕ)
    → let line = boundary_line boundary in
      All (IsSendable line) parts
      → length parts ≤ max_parts
      → 0 < max_parts
      → parse_multipart (line ++ after_line line parts) boundary max_parts
        ≡ some (map read_part parts)
unfolding parse_multipart
parse_multipart-parts boundary parts max_parts h fits some_room =
    let line = boundary_line boundary in
    let room : (max_parts == 0) ≡ false = ground (arith, some_room) in
    let enough : length parts < suc (length (line ++ after_line line parts)) =
      omega (arith, length-append line (after_line line parts), length-after_line line parts) in
    rw (parse_multipart, room)
      (parse_from-parts (take 126 (b'-' ∷ boundary)) parts
        (suc (length (line ++ after_line line parts))) max_parts h enough fits)

-- A part without content and without the line end before its boundary is accepted as well, with a
-- size of 2 ^ 64 - 2: the reader of the part runs over the end of the body.
pub read_header-empty :
    (l header rest : Bytes)
    → let line = b'-' ∷ l in
      IsFree blank_line header
      → read_header line (header ++ (blank_line ++ (line ++ rest)))
        ≡ found (part_of header (line ++ rest) (2 ^ 64 - 2)) (line ++ rest)
unfolding read_header read_content ends_crlf
read_header-empty l header rest free =
    let line = b'-' ∷ l in
    rw (read_header, memsearch-IsFree 13 (10 ∷ 13 ∷ 10 ∷ []) header (line ++ rest) free)
      (rw (read_content, memsearch-here b'-' l rest) refl)
