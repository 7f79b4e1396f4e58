-- ===== src/Server/Requests/Stated.antt =====
-- What the headers of a request say, field by field: the reference for `fp_parse_request` of src/server.c.
use ferretptimize.Common.{
  ℕ, ◌-◌, ◌≡◌, ◌∙◌, refl, ap, List, [], ◌∷◌, map, take, if◌then◌else◌, Bool-cases, inl, inr,
}
use ferretptimize.Common.Int.{ℤ, pos, negsuc}
use ferretptimize.Common.Bytes.{Bytes, codes, to_lower, str_eq, eq_of_str_eq}
use ferretptimize.Server.Multipart.{skip_tabs}
use ferretptimize.Server.Access.{has_case_prefix}
use ferretptimize.Server.Requests.{HttpRequest, read_u64, blank_request, set_header}

pub record Header : Type 0 where
  pub name : Bytes
  pub value : Bytes

-- The headers, one after another.
abbrev pub apply_headers : HttpRequest → List Header → HttpRequest
apply_headers r [] = r
apply_headers r (h ∷ hs) = apply_headers (set_header (map to_lower h.name) (skip_tabs h.value) r) hs

-- The last header with a name, in any case of letters, cut to a field of `size` bytes with its NUL; what
-- stood there before if there is none.
unfoldable pub last_text : ℕ → Bytes → List Header → Bytes → Bytes
last_text size key [] before = before
last_text size key (h ∷ hs) before =
    last_text size key hs
      (if str_eq (map to_lower h.name) key then take (size - 1) (skip_tabs h.value) else before)

-- The same, read as a number.
unfoldable pub last_number : Bytes → List Header → ℕ → ℕ
last_number key [] before = before
last_number key (h ∷ hs) before =
    last_number key hs
      (if str_eq (map to_lower h.name) key then read_u64 (skip_tabs h.value) else before)

abbrev pub intent : Bytes → ℤ → ℤ
intent value before =
    if has_case_prefix (codes "more") value
    then pos 1
    else if has_case_prefix (codes "less") value
    then negsuc 0
    else before

-- 1 or -1 by the last of the intents that say more or less.
unfoldable pub last_intent : List Header → ℤ → ℤ
last_intent [] before = before
last_intent (h ∷ hs) before = last_intent hs (
    if str_eq (map to_lower h.name) (codes "x-tune-intent")
    then intent (skip_tabs h.value) before
    else before)

abbrev stated_from : HttpRequest → List Header → HttpRequest
stated_from r headers = record {
  method = r.method;
  path = r.path;
  content_type = last_text 128 (codes "content-type") headers r.content_type;
  filename = last_text 256 (codes "x-filename") headers r.filename;
  authorization = last_text 256 (codes "authorization") headers r.authorization;
  cookies = last_text 512 (codes "cookie") headers r.cookies;
  tune_format = last_text 8 (codes "x-tune-format") headers r.tune_format;
  tune_label = last_text 32 (codes "x-tune-label") headers r.tune_label;
  tune_direction = last_intent headers r.tune_direction;
  content_length = last_number (codes "content-length") headers r.content_length;
  client_job_id = last_number (codes "x-job-id") headers r.client_job_id;
}

-- The request that a method, a path and headers state.
abbrev pub stated_request : Bytes → Bytes → List Header → HttpRequest
stated_request method path headers = stated_from (blank_request method path) headers

intent-header :
    (value : Bytes) (r : HttpRequest)
    → set_header (codes "x-tune-intent") value r
      ≡ record r { tune_direction = intent value r.tune_direction }
unfolding set_header str_eq
intent-header value r = elim (Bool-cases (has_case_prefix (codes "more") value)) [
  | inl more ↦ rw more refl
  | inr other ↦ elim (Bool-cases (has_case_prefix (codes "less") value)) [
    | inl less ↦ rw (other, less) refl
    | inr neither ↦ rw (other, neither) refl
  ]
]

-- One header changes the field of its name only.
abbrev one_header : Bytes → Bytes → HttpRequest → HttpRequest
one_header name value r = record {
  method = r.method;
  path = r.path;
  content_type = if str_eq name (codes "content-type") then take 127 value else r.content_type;
  filename = if str_eq name (codes "x-filename") then take 255 value else r.filename;
  authorization = if str_eq name (codes "authorization") then take 255 value else r.authorization;
  cookies = if str_eq name (codes "cookie") then take 511 value else r.cookies;
  tune_format = if str_eq name (codes "x-tune-format") then take 7 value else r.tune_format;
  tune_label = if str_eq name (codes "x-tune-label") then take 31 value else r.tune_label;
  tune_direction =
      if str_eq name (codes "x-tune-intent")
      then intent value r.tune_direction
      else r.tune_direction;
  content_length =
      if str_eq name (codes "content-length") then read_u64 value else r.content_length;
  client_job_id = if str_eq name (codes "x-job-id") then read_u64 value else r.client_job_id;
}

set_header-one :
    (name value : Bytes) (r : HttpRequest) → set_header name value r ≡ one_header name value r
unfolding set_header str_eq
set_header-one name value r = elim (Bool-cases (str_eq name (codes "content-length"))) [
  | inl yes_here ↦ rw (eq_of_str_eq name (codes "content-length") yes_here) refl
  | inr e0 ↦ elim (Bool-cases (str_eq name (codes "content-type"))) [
    | inl yes_here ↦ rw (eq_of_str_eq name (codes "content-type") yes_here) refl
    | inr e1 ↦ elim (Bool-cases (str_eq name (codes "x-filename"))) [
      | inl yes_here ↦ rw (eq_of_str_eq name (codes "x-filename") yes_here) refl
      | inr e2 ↦ elim (Bool-cases (str_eq name (codes "authorization"))) [
        | inl yes_here ↦ rw (eq_of_str_eq name (codes "authorization") yes_here) refl
        | inr e3 ↦ elim (Bool-cases (str_eq name (codes "cookie"))) [
          | inl yes_here ↦ rw (eq_of_str_eq name (codes "cookie") yes_here) refl
          | inr e4 ↦ elim (Bool-cases (str_eq name (codes "x-job-id"))) [
            | inl yes_here ↦ rw (eq_of_str_eq name (codes "x-job-id") yes_here) refl
            | inr e5 ↦ elim (Bool-cases (str_eq name (codes "x-tune-format"))) [
              | inl yes_here ↦ rw (eq_of_str_eq name (codes "x-tune-format") yes_here) refl
              | inr e6 ↦ elim (Bool-cases (str_eq name (codes "x-tune-label"))) [
                | inl yes_here ↦ rw (eq_of_str_eq name (codes "x-tune-label") yes_here) refl
                | inr e7 ↦ elim (Bool-cases (str_eq name (codes "x-tune-intent"))) [
                  | inl yes_here ↦
                      rw (eq_of_str_eq name (codes "x-tune-intent") yes_here)
                        (intent-header value r)
                  | inr e8 ↦ rw (e0, e1, e2, e3, e4, e5, e6, e7, e8) refl
                ]
              ]
            ]
          ]
        ]
      ]
    ]
  ]
]

pub apply_headers-stated :
    (hs : List Header) (r : HttpRequest) → apply_headers r hs ≡ stated_from r hs
unfolding last_text last_number last_intent
apply_headers-stated [] r = refl
apply_headers-stated (h ∷ hs) r =
    ap (λ (q : HttpRequest). apply_headers q hs)
      (set_header-one (map to_lower h.name) (skip_tabs h.value) r)
    ∙ apply_headers-stated hs (one_header (map to_lower h.name) (skip_tabs h.value) r)
