-- ===== src/Server/Upload/Tests.antt =====
-- Expert requests of src/server.c at concrete inputs.
use ferretptimize.Common.{ℕ, ◌≡◌, ◌<◌, refl, Option, none, some, List, [], ◌∷◌, length, arith}
use ferretptimize.Common.Bytes.{Bytes, codes, has_prefix, str_eq, case_eq}
use ferretptimize.Auth.Fields.{skip_spaces, find_text, find_byte, read_int64, read_digits}
use ferretptimize.Auth.Scope.{trim_right}
use ferretptimize.Auth.Issue.{trim_token}
use ferretptimize.Auth.Token.{c_string}
use ferretptimize.Auth.Keys.{KeyTable, updated, unless_owned}
use ferretptimize.Server.Options.{ExpertOptions}
use ferretptimize.Server.Multipart.{
  FormPart, memsearch, line_tokens, line_step, line_loop, quoted_value, until, skip_tabs, part_of,
  parse_multipart, parse_from, read_round, read_marker, read_header, read_content, ends_crlf,
}
use ferretptimize.Server.Usage.{track, initial}
use ferretptimize.Server.Access.{extract_auth_token, Config, is_expert_authorized}
use ferretptimize.Server.Upload.{
  answer, go_on, Plan, empty_plan, with_file, Form, parse_boundary, quoted_boundary, plain_boundary,
  skip_marks, metadata_index, role_of, add_file, add_part, add_parts, plan_upload, read_form,
  charge_user, begin_expert, handle_expert, no_files, empty_file, set_opts,
}
use ferretptimize.Server.Upload.Files.{file_parts, IsPlan, plan_upload-IsPlan}
use ferretptimize.Server.Upload.Admitted.{IsAdmitted, handle_expert-IsAdmitted}

abbrev part_named : Bytes → Bytes → FormPart
part_named name content = record {
  name = name;
  filename = codes "a/cat.png";
  content_type = [];
  content = content;
  size = length content;
}

abbrev same_options : FormPart → ExpertOptions → ExpertOptions
same_options part opts = opts

abbrev parts : List FormPart
parts =
    part_named (codes "files[]") (codes "PNG")
    ∷ part_named (codes "metadata[1]") (codes "{}")
    ∷ part_named (codes "file") (codes "MORE")
    ∷ []

boundary_read :
    parse_boundary 128 (codes "multipart/form-data; boundary=\"xyz\"; a=b") ≡ some (codes "xyz")
unfolding parse_boundary find_text has_prefix skip_tabs quoted_boundary
boundary_read = refl

index_read : metadata_index (codes "MetaData[7]") ≡ some 7
unfolding metadata_index has_prefix skip_marks skip_spaces read_int64 read_digits
index_read = refl

-- The function lets 10 pass, its caller does not.
index_ten : metadata_index (codes "metadata_10") ≡ some 10
unfolding metadata_index has_prefix skip_marks skip_spaces read_int64 read_digits
index_ten = refl

abbrev planned : Plan
planned =
    record (with_file (with_file empty_plan (part_named (codes "files[]") (codes "PNG")))
      (part_named (codes "file") (codes "MORE"))) {
        file_opts = set_opts empty_plan.file_opts 1 empty_plan.opts;
      }

parts-planned : plan_upload same_options parts ≡ go_on planned
unfolding plan_upload add_parts add_part add_file role_of metadata_index has_prefix skip_marks
    skip_spaces read_int64 read_digits case_eq str_eq
parts-planned = refl

plan_upload-IsPlan_example : IsPlan planned (file_parts parts) × (0 < length (file_parts parts))
plan_upload-IsPlan_example = plan_upload-IsPlan same_options parts planned parts-planned

-- No file, and one that is empty.
nothing_sent :
    plan_upload same_options (part_named (codes "metadata") (codes "{}") ∷ []) ≡ answer no_files
unfolding plan_upload add_parts add_part add_file role_of metadata_index has_prefix skip_marks
    skip_spaces read_int64 read_digits case_eq str_eq
nothing_sent = refl

empty_sent : plan_upload same_options (part_named (codes "file") [] ∷ []) ≡ answer empty_file
unfolding plan_upload add_parts add_part add_file role_of metadata_index has_prefix skip_marks
    skip_spaces read_int64 read_digits case_eq str_eq
empty_sent = refl

-- A table of keys that has none.
abbrev no_key : KeyTable (Option ℕ)
unfolding unless_owned
no_key = record {
  insert = λ db row. none;
  find_active = λ db hash. none;
  revoke = λ db user. updated db;
  audit = λ db user event metadata. db;
  find-insert = λ db db' row e. absurd (ground (arith, e));
  find-insert_ne = λ db db' row hash e apart. refl;
  find-revoke = λ db db' user hash e. refl;
  find-audit = λ db user event metadata hash. refl;
}

abbrev open_config : Config
open_config = record { keys_csv = none; single_key = none }

abbrev form : Form
form = record {
  credentials = record { authorization = []; cookies = [] };
  content_type = codes "multipart/form-data; boundary=xyz";
  body =
      codes
        "--xyz\r\nContent-Disposition: form-data; name=\"file\"; filename=\"cat.png\"\r\n\r\nPNG\r\n--xyz--\r\n";
}

abbrev one_file : Plan
one_file = with_file empty_plan (record {
  name = codes "file";
  filename = codes "cat.png";
  content_type = [];
  content = codes "PNG";
  size = 3;
})

form-accepted :
    handle_expert same_options no_key open_config none initial 20000 form
    ≡ (go_on (one_file, none), initial)
unfolding handle_expert begin_expert charge_user read_form parse_boundary find_text find_byte
    has_prefix skip_tabs plain_boundary parse_multipart parse_from read_round read_marker
    read_header read_content ends_crlf memsearch part_of line_loop line_step line_tokens
    quoted_value until c_string case_eq str_eq plan_upload add_parts add_part add_file role_of
    metadata_index skip_marks skip_spaces read_int64 read_digits track is_expert_authorized
    extract_auth_token trim_token trim_right
form-accepted = refl

handle_expert-IsAdmitted_example :
    IsAdmitted no_key open_config none initial 20000 form one_file none initial
handle_expert-IsAdmitted_example =
    handle_expert-IsAdmitted same_options form no_key open_config none initial 20000 one_file none
      initial form-accepted
