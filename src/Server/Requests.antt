-- ===== src/Server/Requests.antt =====
-- The request that src/server.c reads off a header block, `fp_parse_request`, and the handler that
-- `fp_handle_client` gives it to.
pub mod Stated
pub mod Parsed
pub mod Streams
pub mod Bearer
mod Tests
use ferretptimize.Common.{
  ℕ, zero, suc, ◌+◌, ◌-◌, ◌%◌, ◌^◌, Bool, true, false, not, ◌&&◌, ◌||◌, Option, none, some, List,
  [], ◌∷◌, ◌++◌, ltb, leb, ◌==◌, if◌then◌else◌, length, take, drop, map,
}
use ferretptimize.Common.Int.{ℤ, pos, negsuc}
use ferretptimize.Common.Bytes.{Bytes, codes, is_space, is_digit, to_lower, str_eq, has_prefix}
use ferretptimize.Auth.Fields.{skip_spaces, read_digits}
use ferretptimize.Auth.Token.{c_string}
use ferretptimize.Server.Multipart.{line_tokens, skip_tabs, until, filename_max}
use ferretptimize.Server.Access.{has_case_prefix}
use ferretptimize.Server.Headers.{Body, no_body, got_body}

-- `fp_http_request`.
pub record HttpRequest : Type 0 where
  pub method : Bytes
  pub path : Bytes
  pub content_type : Bytes
  pub filename : Bytes
  pub authorization : Bytes
  pub cookies : Bytes
  pub tune_format : Bytes
  pub tune_label : Bytes
  pub tune_direction : ℤ
  pub content_length : ℕ
  pub client_job_id : ℕ

-- `toupper` in the C locale.
abbrev pub to_upper : ℕ → ℕ
to_upper c = if leb b'a' c && leb c b'z' then c - 32 else c

-- `strtoull` in base 10, 0 where it reads no number; it stops at the end of `unsigned long long`.
unfoldable pub signed_u64 : Bytes → ℕ
signed_u64 [] = 0
signed_u64 (c ∷ s) =
    let value = read_digits 0 (if c == b'-' || c == b'+' then s else c ∷ s) in
    if leb (2 ^ 64) value
    then 2 ^ 64 - 1
    else if c == b'-'
    then (2 ^ 64 - value) % 2 ^ 64
    else value

abbrev pub read_u64 : Bytes → ℕ
read_u64 s = signed_u64 (skip_spaces s)

-- Where `strtoull` stops, where it reads a number.
unfoldable pub after_digits : Bytes → Bytes
after_digits [] = []
after_digits (c ∷ s) = let rest = after_digits s in if is_digit c then rest else c ∷ s

abbrev pub after_sign : Bytes → Bytes
after_sign [] = []
after_sign (c ∷ s) = if c == b'-' || c == b'+' then s else c ∷ s

-- "%7s" and "%255s" on a text without white space before it.
unfoldable pub word : ℕ → Bytes → Bytes
word zero s = []
word (suc n) [] = []
word (suc n) (c ∷ s) = let rest = word n s in if is_space c then [] else c ∷ rest

unfoldable pub after_word : ℕ → Bytes → Bytes
after_word zero s = s
after_word (suc n) [] = []
after_word (suc n) (c ∷ s) = let rest = after_word n s in if is_space c then c ∷ s else rest

abbrev pub blank_request : Bytes → Bytes → HttpRequest
blank_request method path = record {
  method = method;
  path = path;
  content_type = [];
  filename = [];
  authorization = [];
  cookies = [];
  tune_format = [];
  tune_label = [];
  tune_direction = pos 0;
  content_length = 0;
  client_job_id = 0;
}

-- `sscanf(line, "%7s %255s", ...)` and the loop of `toupper`.
unfoldable pub request_line : Bytes → Option HttpRequest
request_line line =
    let start = skip_spaces line in
    let method = word 7 start in
    let path = word 255 (skip_spaces (after_word 7 start)) in
    if length method == 0 || length path == 0
    then none
    else some (blank_request (map to_upper method) path)

-- What the chain of `strcmp` does with a header.
unfoldable pub set_header : Bytes → Bytes → HttpRequest → HttpRequest
set_header name value r =
    if str_eq name (codes "content-length")
    then record r { content_length = read_u64 value }
    else if str_eq name (codes "content-type")
    then record r { content_type = take 127 value }
    else if str_eq name (codes "x-filename")
    then record r { filename = take (filename_max - 1) value }
    else if str_eq name (codes "authorization")
    then record r { authorization = take 255 value }
    else if str_eq name (codes "cookie")
    then record r { cookies = take 511 value }
    else if str_eq name (codes "x-job-id")
    then record r { client_job_id = read_u64 value }
    else if str_eq name (codes "x-tune-format")
    then record r { tune_format = take 7 value }
    else if str_eq name (codes "x-tune-label")
    then record r { tune_label = take 31 value }
    else if str_eq name (codes "x-tune-intent")
    then (if has_case_prefix (codes "more") value
        then record r { tune_direction = pos 1 }
        else if has_case_prefix (codes "less") value
        then record r { tune_direction = negsuc 0 }
        else r)
    else r

-- The body of the loop over the lines.
unfoldable pub header_line : HttpRequest → Bytes → HttpRequest
header_line r line = elim (until b':' line) [
  | none ↦ r
  | some name ↦ set_header (map to_lower name) (skip_tabs (drop (length name + 1) line)) r
]

unfoldable pub header_lines : HttpRequest → List Bytes → HttpRequest
header_lines r [] = r
header_lines r (line ∷ lines) = header_lines (header_line r line) lines

unfoldable pub parse_lines : List Bytes → Option HttpRequest
parse_lines [] = none
parse_lines (line ∷ lines) = elim (request_line line) [
  | none ↦ none
  | some r ↦ some (header_lines r lines)
]

-- `fp_parse_request`; none for -1.
unfoldable pub parse_request : Bytes → Option HttpRequest
parse_request block = parse_lines (line_tokens [] (c_string block))

-- `fp_parse_stream_path`; none for false.
unfoldable pub parse_stream_path : Bytes → Option ℕ
parse_stream_path path =
    let cursor = drop 10 path in
    let candidate = read_u64 cursor in
    if not (has_prefix (codes "/api/jobs/") path) || candidate == 0
    then none
    else if str_eq (after_digits (after_sign (skip_spaces cursor))) (codes "/events")
    then some candidate
    else none

-- What `fp_handle_client` does with a request.
pub data Route : Type 0 where
  event_stream : ℕ → Route
  env_js : Route
  static_file : Bytes → Route
  compress : Bytes → Route
  expert_compress : Bytes → Route
  checkout : Body → Route
  portal : Route
  webhook google facebook : Body → Route
  issue_key : Body → Route
  missing_body : Route  -- 400
  not_found : Route  -- 404

abbrev pub with_body : Body → (Bytes → Route) → Route
with_body (got_body body) f = f body
with_body _ f = missing_body

abbrev is_missing : Body → Bool
is_missing (got_body body) = false
is_missing _ = true

abbrev get_route : Bytes → Route
get_route path = elim (parse_stream_path path) [
  | some id ↦ event_stream id
  | none ↦ if str_eq path (codes "/env.js") then env_js else static_file path
]

abbrev post_route : Bytes → Body → Route
post_route path body =
    if str_eq path (codes "/api/compress")
    then with_body body compress
    else if str_eq path (codes "/api/expert/compress")
    then with_body body expert_compress
    else if str_eq path (codes "/api/stripe/checkout")
    then checkout body
    else if str_eq path (codes "/api/stripe/portal")
    then portal
    else if str_eq path (codes "/webhook/stripe")
    then webhook body
    else if str_eq path (codes "/auth/google")
    then google body
    else if str_eq path (codes "/auth/facebook")
    then facebook body
    else if str_eq path (codes "/api/keys")
    then (if is_missing body then missing_body else issue_key body)
    else not_found

-- The part of `fp_handle_client` behind the reading of the body.
unfoldable pub route : HttpRequest → Body → Route
route r body =
    if str_eq r.method (codes "GET")
    then get_route r.path
    else if str_eq r.method (codes "POST")
    then post_route r.path body
    else not_found
