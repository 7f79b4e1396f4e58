-- ===== src/Server/Multipart/Tests.antt =====
-- A form with one file, read by `fp_parse_multipart` of src/server.c.
use ferretptimize.Common.{◌≡◌, refl, some, [], ◌∷◌, ◌++◌, arith}
use ferretptimize.Common.Bytes.{Bytes, codes, has_prefix, case_eq, str_eq}
use ferretptimize.Auth.Fields.{find_text, find_byte}
use ferretptimize.Auth.Token.{c_string}
use ferretptimize.Server.Multipart.{
  boundary_line, crlf, blank_line, memsearch, line_tokens, line_step, line_loop, quoted_value,
  until, skip_tabs, part_of, parse_multipart, found, read_header,
}
use ferretptimize.Server.Multipart.Search.{IsFree, all_but_last}
use ferretptimize.Server.Multipart.Forms.{
  FormFile, raw, stated_part, IsFormFile, parse_multipart-stated,
}
use ferretptimize.Server.Multipart.RoundTrip.{
  RawPart, after_line, read_part, IsSendable, read_header-empty,
}

abbrev boundary : Bytes
boundary = codes "xyz"

abbrev upload : RawPart
upload = record {
  header =
      codes "Content-Disposition: form-data; name=\"file\"; filename=\"cat.png\""
      ++ (crlf ++ codes "Content-Type: image/png");
  content = codes "PNG--xy";
}

upload-read : read_part upload ≡ record {
  name = codes "file";
  filename = codes "cat.png";
  content_type = codes "image/png";
  content = codes "PNG--xy";
  size = 7;
}
unfolding part_of line_loop line_step line_tokens quoted_value until skip_tabs c_string find_text
    find_byte has_prefix case_eq str_eq
upload-read = refl

upload-IsSendable : IsSendable (boundary_line boundary) upload
unfolding part_of line_loop line_step line_tokens quoted_value until skip_tabs c_string find_text
    find_byte has_prefix case_eq str_eq memsearch all_but_last
upload-IsSendable = record {
  header = refl;
  content = refl;
  size = omega arith;
  named = omega arith;
}

abbrev cat : FormFile
cat = record {
  name = codes "file";
  filename = codes "cat.png";
  media = codes "image/png";
  content = codes "PNG--xy";
}

cat-IsSendable : IsSendable (boundary_line boundary) (raw cat)
unfolding part_of line_loop line_step line_tokens quoted_value until skip_tabs c_string find_text
    find_byte has_prefix case_eq str_eq memsearch all_but_last
cat-IsSendable = record { header = refl; content = refl; size = omega arith; named = omega arith }

cat-IsFormFile : IsFormFile cat
cat-IsFormFile = record {
  plain_name = ground arith;
  no_equals = ground arith;
  plain_filename = ground arith;
  name_unbroken = ground arith;
  filename_unbroken = ground arith;
  media_unbroken = ground arith;
  media_start = (refl, refl);
}

parse_multipart-stated_example :
    parse_multipart
      (boundary_line boundary ++ after_line (boundary_line boundary) (raw cat ∷ raw cat ∷ []))
      boundary
      8
    ≡ some (stated_part cat ∷ stated_part cat ∷ [])
parse_multipart-stated_example =
    parse_multipart-stated boundary (cat ∷ cat ∷ []) 8 (cat-IsSendable, (cat-IsSendable, tt))
      (cat-IsFormFile, (cat-IsFormFile, tt)) (omega arith) (omega arith)

header-IsFree : IsFree blank_line (codes "Content-Disposition: form-data; name=\"file\"")
unfolding memsearch all_but_last has_prefix
header-IsFree = refl

read_header-empty_example :
    let line = boundary_line boundary in
    let header = codes "Content-Disposition: form-data; name=\"file\"" in
    read_header line (header ++ (blank_line ++ (line ++ codes "--")))
    ≡ found (part_of header (line ++ codes "--") 18446744073709551614) (line ++ codes "--")
read_header-empty_example =
    read_header-empty (codes "-xyz") (codes "Content-Disposition: form-data; name=\"file\"")
      (codes "--") header-IsFree

-- The name is looked for inside `filename` too, where that comes first.
name_of_filename :
    quoted_value
      (codes "name=\"")
      (codes "Content-Disposition: form-data; filename=\"a\"; name=\"b\"")
      64
      []
    ≡ codes "a"
unfolding quoted_value until find_text has_prefix
name_of_filename = refl
