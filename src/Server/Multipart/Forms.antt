-- ===== src/Server/Multipart/Forms.antt =====
-- A form of files as browsers send it, read by `fp_parse_multipart` of src/server.c.
use ferretptimize.Common.{
  ℕ, suc, ◌≤◌, ◌<◌, ◌≡◌, ◌∙◌, refl, ap, ap₂, sym, false, Option, none, some, List, [], ◌∷◌, ◌++◌,
  append-nil, map, All, All-append, length, take, drop, take-all, arith, ◌==◌,
}
use ferretptimize.Common.Bytes.{Bytes, codes, has_prefix, case_eq, str_eq}
use ferretptimize.Auth.Fields.{find_text, find_byte}
use ferretptimize.Auth.Token.{c_string}
use ferretptimize.Server.Multipart.{
  FormPart, boundary_line, line_tokens, until, quoted_value, skip_tabs, line_step, line_loop,
  part_of, parse_multipart,
}
use ferretptimize.Server.Multipart.Lines.{
  is_break, c_string-line, line_tokens-line, until-name, line_tokens-break,
}
use ferretptimize.Server.Multipart.RoundTrip.{
  RawPart, after_line, read_part, IsSendable, parse_multipart-parts,
}

-- A file of the form.
pub record FormFile : Type 0 where
  pub name : Bytes
  pub filename : Bytes
  pub media : Bytes
  pub content : Bytes

abbrev after_name : FormFile → Bytes
after_name f = codes "; filename=\"" ++ (f.filename ++ (b'"' ∷ []))

abbrev disposition : FormFile → Bytes
disposition f = codes "Content-Disposition: form-data; name=\"" ++ (f.name ++ (b'"' ∷ after_name f))

abbrev media_line : FormFile → Bytes
media_line f = codes "Content-Type: " ++ f.media

-- How it is sent.
abbrev pub raw : FormFile → RawPart
raw f = record { header = disposition f ++ (13 ∷ 10 ∷ media_line f); content = f.content }

-- What is to be read of it: its name, cut to 63 bytes, its file name to 255, its type to 127, and its
-- content with its size.
abbrev pub stated_part : FormFile → FormPart
stated_part f = record {
  name = take 63 f.name;
  filename = take 255 f.filename;
  content_type = take 127 f.media;
  content = f.content;
  size = length f.content;
}

abbrev pub StartsPlain : Bytes → Type 0
StartsPlain [] = Unit
StartsPlain (c ∷ s) = ((c == b' ') ≡ false) × ((c == 9) ≡ false)

-- Neither text has a quote or a line break, the name no equals sign, and the type no blank before it.
pub record IsFormFile (f : FormFile) : Type 0 where
  pub plain_name : All (λ c. (c == b'"') ≡ false) f.name
  pub no_equals : All (λ c. (c == b'=') ≡ false) f.name
  pub plain_filename : All (λ c. (c == b'"') ≡ false) f.filename
  pub name_unbroken : All (λ c. is_break c ≡ false) f.name
  pub filename_unbroken : All (λ c. is_break c ≡ false) f.filename
  pub media_unbroken : All (λ c. is_break c ≡ false) f.media
  pub media_start : StartsPlain f.media

-- A text with an equals sign, and no quote before it, does not begin in one that has a quote, and no
-- equals sign before it.
no_match :
    (front rest u v : Bytes)
    → All (λ c. (c == b'"') ≡ false) front
    → All (λ c. (c == b'=') ≡ false) u
    → has_prefix (front ++ (b'=' ∷ rest)) (u ++ (b'"' ∷ v)) ≡ false
unfolding has_prefix
no_match [] rest [] v h k = refl
no_match [] rest (c ∷ u) v h k = ground (arith, k.0)
no_match (d ∷ front) rest [] v h k = ground (arith, h.0)
no_match (d ∷ front) rest (c ∷ u) v h k = ground (arith, no_match front rest u v h.1 k.1)

find_text-past_name :
    (u v : Bytes)
    → All (λ c. (c == b'=') ≡ false) u
    → find_text (codes "filename=\"") (u ++ (b'"' ∷ v)) ≡ find_text (codes "filename=\"") (b'"' ∷ v)
unfolding find_text
find_text-past_name [] v k = refl
find_text-past_name (c ∷ u) v k =
    let other = no_match (codes "filename") (codes "\"") (c ∷ u) v (ground arith) k in
    rw other (find_text-past_name u v k.1)

skip_tabs-plain : (s : Bytes) → StartsPlain s → skip_tabs s ≡ s
unfolding skip_tabs
skip_tabs-plain [] h = refl
skip_tabs-plain (c ∷ s) h = rw (h.0, h.1) refl

-- The part that the first line makes of an empty one.
disposed-part :
    (f : FormFile) (part : FormPart)
    → IsFormFile f
    → line_step part (disposition f)
      ≡ record part { name = take 63 f.name; filename = take 255 f.filename }
unfolding line_step quoted_value find_text has_prefix case_eq str_eq
disposed-part f part i =
    let name = until-name b'"' f.name (after_name f) i.plain_name in
    let filename = until-name b'"' f.filename [] i.plain_filename in
    let past = find_text-past_name f.name (after_name f) i.no_equals in
    let cut : Bytes → ℕ → Option Bytes → Bytes =
      λ before size o. elim o as (λ o. Bytes) [ none ↦ before | some value ↦ take size value ] in
    let named : Option Bytes → Bytes = λ o. elim o as (λ o. Bytes) [
      | none ↦ part.filename
      | some at ↦ cut part.filename 255 (until b'"' (drop 10 at))
    ] in
    ap₂ (λ (n g : Bytes). record part { name = n; filename = g }) (ap (cut part.name 63) name)
      (ap named past ∙ ap (cut part.filename 255) filename)

typed-part :
    (f : FormFile) (part : FormPart)
    → IsFormFile f
    → line_step part (media_line f) ≡ record part { content_type = take 127 f.media }
unfolding line_step find_byte case_eq str_eq skip_tabs
typed-part f part i =
    ap (λ (m : Bytes). record part { content_type = take 127 m })
      (skip_tabs-plain f.media i.media_start)

line_loop-headers :
    (f : FormFile)
    → IsFormFile f
    → line_tokens [] (c_string (raw f).header) ≡ disposition f ∷ media_line f ∷ []
unfolding c_string line_tokens
line_loop-headers f i =
    let first : All (λ c. is_break c ≡ false) (disposition f) =
      All-append (λ c. is_break c ≡ false) (codes "Content-Disposition: form-data; name=\"")
        (f.name ++ (b'"' ∷ after_name f)) (ground arith)
        (All-append (λ c. is_break c ≡ false) f.name (b'"' ∷ after_name f) i.name_unbroken
          (
            refl,
            All-append (λ c. is_break c ≡ false) (codes "; filename=\"") (f.filename ++ (b'"' ∷ []))
                (ground arith)
                (All-append (λ c. is_break c ≡ false) f.filename (b'"' ∷ []) i.filename_unbroken
                  (refl, tt)),
          )) in
    let second : All (λ c. is_break c ≡ false) (media_line f) =
      All-append (λ c. is_break c ≡ false) (codes "Content-Type: ") f.media (ground arith)
        i.media_unbroken in
    let text : c_string (raw f).header ≡ (raw f).header =
      c_string-line (disposition f) (13 ∷ 10 ∷ media_line f) first
      ∙ ap (λ (t : Bytes). disposition f ++ (13 ∷ 10 ∷ t))
          (ap c_string (sym (append-nil (media_line f)))
            ∙ c_string-line (media_line f) [] second
            ∙ append-nil (media_line f)) in
    let tail : line_tokens [] (media_line f) ≡ media_line f ∷ [] =
      ap (line_tokens []) (sym (append-nil (media_line f)))
      ∙ line_tokens-line [] (media_line f) [] second in
    ap (line_tokens []) text
    ∙ line_tokens-line [] (disposition f) (13 ∷ 10 ∷ media_line f) first
    ∙ line_tokens-break (disposition f) (media_line f) (omega arith)
    ∙ ap (◌∷◌ (disposition f)) tail

length-map : (files : List FormFile) → length (map raw files) ≡ length files
length-map [] = refl
length-map (f ∷ files) = ap suc (length-map files)

read_part-raw : (f : FormFile) → IsFormFile f → read_part (raw f) ≡ stated_part f
unfolding part_of line_loop
read_part-raw f i =
    let start : FormPart = record {
      name = [];
      filename = [];
      content_type = [];
      content = take (length f.content) f.content;
      size = length f.content;
    } in
    let first = disposed-part f start i in
    let second =
      typed-part f (record start { name = take 63 f.name; filename = take 255 f.filename }) i in
    let content = take-all (length f.content) f.content (omega arith) in
    ap (line_loop start) (line_loop-headers f i)
    ∙ ap (λ (p : FormPart). line_step p (media_line f)) first
    ∙ second
    ∙ ap (λ (c : Bytes). record (stated_part f) { content = c }) content

read_parts-raw :
    (files : List FormFile)
    → All IsFormFile files
    → map read_part (map raw files) ≡ map stated_part files
read_parts-raw [] h = refl
read_parts-raw (f ∷ files) h =
    ap₂ (λ (p : FormPart) ps. p ∷ ps) (read_part-raw f h.0) (read_parts-raw files h.1)

-- A form of files is read back, file for file and in order: each with its name, its file name and its
-- type, cut to their fields, and its whole content and size. There must be room for the parts; the boundary, cut to
-- 127 bytes with its dashes, must not begin in a content; names have no quote, no equals sign and no
-- line break, and are not empty; and a header has no blank line in it.
pub parse_multipart-stated :
    (boundary : Bytes) (files : List FormFile) (max_parts : ℕ)
    → let line = boundary_line boundary in
      All (IsSendable line) (map raw files)
      → All IsFormFile files
      → length files ≤ max_parts
      → 0 < max_parts
      → parse_multipart (line ++ after_line line (map raw files)) boundary max_parts
        ≡ some (map stated_part files)
parse_multipart-stated boundary files max_parts sendable all fits some_room =
    parse_multipart-parts boundary (map raw files) max_parts sendable
      (omega (arith, length-map files, fits)) some_room
    ∙ ap some (read_parts-raw files all)
