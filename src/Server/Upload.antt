-- ===== src/Server/Upload.antt =====
-- What `fp_handle_expert_compress` of src/server.c does before it makes jobs: authorization, the boundary,
-- the parts, the files among them with their options, and the daily quota. The reader of the JSON
-- options, `fp_parse_expert_metadata`, is an argument.
pub mod Files
pub mod Complete
pub mod Admitted
mod Tests
use ferretptimize.Common.{
  ℕ, zero, suc, ◌+◌, ◌-◌, ◌*◌, ◌%◌, ◌^◌, Bool, true, false, not, ◌&&◌, ◌||◌, Option, none, some,
  List, [], ◌∷◌, ◌++◌, ltb, leb, ◌==◌, if◌then◌else◌, length, take, drop, map, get_or,
}
use ferretptimize.Common.Int.{ℤ, pos, negsuc}
use ferretptimize.Common.Bytes.{Bytes, codes, case_eq, or_empty}
use ferretptimize.Auth.Fields.{find_text, skip_spaces, read_int64}
use ferretptimize.Auth.Token.{User, decimal}
use ferretptimize.Auth.Keys.{KeyTable}
use ferretptimize.Server.Multipart.{FormPart, skip_tabs, filename_max, parse_multipart}
use ferretptimize.Server.Paths.{sanitize_filename}
use ferretptimize.Server.Options.{ExpertOptions, default_expert_options}
use ferretptimize.Server.Usage.{
  Entry, track, allowed as within_quota, server_busy, job_limit, byte_limit,
}
use ferretptimize.Server.Access.{
  has_case_prefix, Accounts, Config, Credentials, Verdict, allowed, inactive, refused,
  is_expert_authorized, no_user,
}

-- `FP_EXPERT_MAX_FILES`, `FP_EXPERT_MAX_FILE`, `FP_EXPERT_MAX_TOTAL` and the size of `parts`.
abbrev pub max_files : ℕ
max_files = 10

abbrev pub max_file : ℕ
max_file = 20971520

abbrev pub max_total : ℕ
max_total = 104857600

abbrev pub max_parts : ℕ
max_parts = 14

-- The loops of `fp_parse_boundary` that copy a value.
unfoldable pub quoted_boundary : Bytes → Bytes
quoted_boundary [] = []
quoted_boundary (c ∷ s) = let rest = quoted_boundary s in if c == b'"' then [] else c ∷ rest

unfoldable pub plain_boundary : Bytes → Bytes
plain_boundary [] = []
plain_boundary (c ∷ s) =
    let rest = plain_boundary s in if c == b';' || c == b' ' then [] else c ∷ rest

abbrev pub boundary_value : Bytes → Bytes
boundary_value [] = []
boundary_value (c ∷ s) = if c == b'"' then quoted_boundary s else plain_boundary (c ∷ s)

-- `fp_parse_boundary` into a block of `size` bytes; none for -1.
unfoldable pub parse_boundary : ℕ → Bytes → Option Bytes
parse_boundary size content_type = elim (find_text (codes "boundary=") content_type) [
  | none ↦ none
  | some at ↦
      let value = take (size - 1) (boundary_value (skip_tabs (drop 9 at))) in
      if length value == 0 then none else some value
]

-- `while (*cursor && (*cursor == '[' || ...))`.
unfoldable pub skip_marks : Bytes → Bytes
skip_marks [] = []
skip_marks (c ∷ s) =
    let rest = skip_marks s in
    if c == b'[' || c == b']' || c == b'_' || c == b'-' then rest else c ∷ s

-- `idx < 0 || idx > FP_EXPERT_MAX_FILES`.
abbrev pub index_of : Option ℤ → Option ℕ
index_of none = none
index_of (some (negsuc n)) = none
index_of (some (pos n)) = if ltb max_files n then none else some n

-- `fp_metadata_index_from_part_name`; none for -1.
unfoldable pub metadata_index : Bytes → Option ℕ
metadata_index name =
    let index = index_of (read_int64 (skip_spaces (skip_marks (drop 8 name)))) in
    if has_case_prefix (codes "metadata") name then index else none

-- The errors that the handler answers with.
pub data Refusal : Type 0 where
  unauthorized no_boundary malformed_body too_many_files empty_file file_too_large total_too_large
        no_files over_quota :
      Refusal

abbrev pub http_status : Refusal → ℕ
http_status unauthorized = 401
http_status file_too_large = 413
http_status total_too_large = 413
http_status over_quota = 429
http_status _ = 400

pub data Outcome (A : Type 0) : Type 0 where
  answer : Refusal → Outcome A
  go_on : A → Outcome A

abbrev pub then_do : {A B : Type 0} → Outcome A → (A → Outcome B) → Outcome B
then_do (answer r) f = answer r
then_do (go_on a) f = f a

-- A file of the request, with its name and data.
pub record Upload : Type 0 where
  pub part : FormPart
  pub filename : Bytes

-- The variables of the loop over the parts; `file_opts` by index, none where it is not set.
pub record Plan : Type 0 where
  pub opts : ExpertOptions
  pub file_opts : ℕ → Option ExpertOptions
  pub files : List Upload
  pub total_bytes : ℕ

abbrev pub empty_plan : Plan
empty_plan = record {
  opts = default_expert_options;
  file_opts = λ i. none;
  files = [];
  total_bytes = 0;
}

abbrev pub set_opts : (ℕ → Option ExpertOptions) → ℕ → ExpertOptions → ℕ → Option ExpertOptions
set_opts file_opts index o i = if i == index then some o else file_opts i

-- `strncasecmp(part.name, "files", 5) == 0 || strncasecmp(part.name, "file", 4) == 0`.
abbrev pub is_file_name : Bytes → Bool
is_file_name name = has_case_prefix (codes "files") name || has_case_prefix (codes "file") name

-- The name under which a file goes on.
unfoldable pub upload_name : ℕ → FormPart → Bytes
upload_name count part =
    let name = or_empty (sanitize_filename filename_max (some part.filename)) in
    if length name == 0
    then take (filename_max - 1) (codes "upload-" ++ (decimal (count + 1) ++ codes ".png"))
    else name

abbrev pub with_file : Plan → FormPart → Plan
with_file plan part = record plan {
  files =
      plan.files ++ (record { part = part; filename = upload_name (length plan.files) part } ∷ []);
  total_bytes = (plan.total_bytes + part.size) % 2 ^ 64;
}

-- What the loop does with a file.
unfoldable pub add_file : Plan → FormPart → Outcome Plan
add_file plan part =
    let count = length plan.files in
    let total = (plan.total_bytes + part.size) % 2 ^ 64 in
    if leb max_files count
    then answer too_many_files
    else if part.size == 0
    then answer empty_file
    else if ltb max_file part.size
    then answer file_too_large
    else if ltb max_total total
    then answer total_too_large
    else go_on (with_file plan part)

-- What a part is to the loop.
pub data Role : Type 0 where
  options_of : ℕ → Role
  common_options : Role
  file : Role
  ignored : Role

unfoldable pub role_of : Bytes → Role
role_of name =
    let named =
      if case_eq name (codes "metadata")
      then common_options
      else if is_file_name name
      then file
      else ignored in
    elim (metadata_index name) [
      | none ↦ named
      | some index ↦ if ltb index max_files then options_of index else named
    ]

abbrev or_options : Option ExpertOptions → ExpertOptions → ExpertOptions
or_options none opts = opts
or_options (some own) opts = own

-- The options of the `i`-th file, after the loop that fills in `file_opts`.
abbrev pub options_for : Plan → ℕ → ExpertOptions
options_for plan i = or_options (plan.file_opts i) plan.opts

-- What of a request the handler reads before it makes jobs.
pub record Form : Type 0 where
  pub credentials : Credentials
  pub content_type : Bytes
  pub body : Bytes

abbrev pub charged_user : Option User → ℕ
charged_user none = 0
charged_user (some user) = user.id

-- The quota of the user, 0 where the request names none: the answer and the table of usage after.
unfoldable pub charge_user :
    List Entry → ℕ → Option User → Outcome Plan → Outcome (Plan × Option User) × List Entry
charge_user usage today user (answer r) = (answer r, usage)
charge_user usage today user (go_on plan) =
    let (verdict, usage') =
      track usage (charged_user user) today (length plan.files) plan.total_bytes in
    (
      elim verdict [
        | within_quota ↦ go_on (plan, user)
        | server_busy ↦ answer over_quota
        | job_limit ↦ answer over_quota
        | byte_limit ↦ answer over_quota
      ],
      usage',
    )

module _ (parse_metadata : FormPart → ExpertOptions → ExpertOptions) where
  -- The body of the loop over the parts.
  unfoldable pub add_part : Role → Plan → FormPart → Outcome Plan
  add_part (options_of index) plan part =
      go_on
        (record plan { file_opts = set_opts plan.file_opts index (parse_metadata part plan.opts) })
  add_part common_options plan part = go_on (record plan { opts = parse_metadata part plan.opts })
  add_part file plan part = add_file plan part
  add_part ignored plan part = go_on plan

  unfoldable pub add_parts : Plan → List FormPart → Outcome Plan
  add_parts plan [] = go_on plan
  add_parts plan (part ∷ parts) =
      then_do (add_part (role_of part.name) plan part) (λ next. add_parts next parts)

  -- The loop, and the test that there is a file.
  unfoldable pub plan_upload : List FormPart → Outcome Plan
  plan_upload parts =
      then_do (add_parts empty_plan parts)
        (λ plan. if length plan.files == 0 then answer no_files else go_on plan)

  -- `fp_parse_boundary`, `fp_parse_multipart` and the loop.
  unfoldable pub read_form : Form → Outcome Plan
  read_form form = elim (parse_boundary 128 form.content_type) [
    | none ↦ answer no_boundary
    | some boundary ↦ elim (parse_multipart form.body boundary max_parts) [
      | none ↦ answer malformed_body
      | some parts ↦ plan_upload parts
    ]
  ]

  -- `fp_handle_expert_compress` up to the jobs, on the answer of `fp_is_expert_authorized`.
  unfoldable pub begin_expert :
      List Entry → ℕ → Form → Verdict → Outcome (Plan × Option User) × List Entry
  begin_expert usage today form (allowed source user) =
      charge_user usage today user (read_form form)
  begin_expert usage today form inactive = (answer unauthorized, usage)
  begin_expert usage today form refused = (answer unauthorized, usage)

  unfoldable pub handle_expert :
      {Db : Type 0}
      → KeyTable Db
      → Config
      → Option (Accounts Db)
      → List Entry
      → ℕ
      → Form
      → Outcome (Plan × Option User) × List Entry
  handle_expert table config accounts usage today form =
      begin_expert usage today form (is_expert_authorized table config accounts form.credentials)
