-- ===== src/Server/Access.antt =====
-- Who may use expert mode in src/server.c: the tokens of a request, `fp_get_cookie_value`,
-- `fp_extract_auth_token` and `fp_match_api_key`, and the decision, `fp_is_expert_authorized` and
-- `fp_authenticate_request`.
pub mod Keys
pub mod Tokens
pub mod Entitled
mod Tests
use ferretptimize.Common.{
  ℕ, zero, suc, ◌+◌, ◌-◌, Bool, true, false, not, ◌&&◌, ◌||◌, Option, none, some, List, [], ◌∷◌,
  ◌++◌, ltb, ◌==◌, if◌then◌else◌, length, take, drop, map,
}
use ferretptimize.Common.Int.{ℤ}
use ferretptimize.Common.Bytes.{Bytes, codes, is_space, to_lower, str_eq, has_prefix, or_empty}
use ferretptimize.Auth.Fields.{skip_spaces}
use ferretptimize.Auth.Scope.{item_of, from_comma, trim_right, past_comma}
use ferretptimize.Auth.Issue.{trim_token}
use ferretptimize.Auth.Keys.{KeyTable, api_key_allowed, Subscription, has_active_subscription}
use ferretptimize.Auth.Token.{User, Store, validate_access}

-- `strncasecmp(s, p, strlen(p)) == 0`, `p` in lower case.
abbrev pub has_case_prefix : Bytes → Bytes → Bool
has_case_prefix p s = has_prefix p (map to_lower s)

-- `fp_extract_auth_token` on a header, with `room` bytes before the NUL.
unfoldable pub extract_auth_token : ℕ → Bytes → Bytes
extract_auth_token room header =
    let start = skip_spaces header in
    let token =
      if has_case_prefix (codes "bearer ") start || has_case_prefix (codes "apikey ") start
      then drop 7 start
      else start in
    trim_token (take room (skip_spaces token))

-- `while (*cursor == ' ' || *cursor == '\t' || *cursor == ';')`.
unfoldable pub skip_cookie_gap : Bytes → Bytes
skip_cookie_gap [] = []
skip_cookie_gap (c ∷ s) =
    let rest = skip_cookie_gap s in if c == b' ' || c == 9 || c == b';' then rest else c ∷ s

-- `while (*cursor && *cursor != ';')`: what the loop passes, and what is left.
unfoldable pub cookie_of : Bytes → Bytes
cookie_of [] = []
cookie_of (c ∷ s) = let rest = cookie_of s in if c == b';' then [] else c ∷ rest

-- The same, with `if (*cursor == ';') ++cursor;`.
unfoldable pub next_cookie : Bytes → Bytes
next_cookie [] = []
next_cookie (c ∷ s) = let rest = next_cookie s in if c == b';' then s else rest

-- The loop of `fp_get_cookie_value`, with at most `n` rounds and `room` bytes before the NUL.
unfoldable pub cookie_loop : ℕ → ℕ → Bytes → Bytes → Bytes
cookie_loop zero room name cursor = []
cookie_loop (suc n) room name [] = []
cookie_loop (suc n) room name (c ∷ s) =
    let cursor = skip_cookie_gap (c ∷ s) in
    let later = cookie_loop n room name (next_cookie cursor) in
    if has_prefix (name ++ (b'=' ∷ [])) cursor
    then trim_token (take room (cookie_of (drop (length name + 1) cursor)))
    else later

-- `fp_get_cookie_value` of the request's `cookies`.
unfoldable pub get_cookie_value : ℕ → Bytes → Bytes → Bytes
get_cookie_value room [] cookies = []
get_cookie_value room (c ∷ name) cookies = cookie_loop (length cookies) room (c ∷ name) cookies

-- `while (*cursor == ',' || isspace(*cursor))`.
unfoldable pub skip_key_gap : Bytes → Bytes
skip_key_gap [] = []
skip_key_gap (c ∷ s) = let rest = skip_key_gap s in if c == b',' || is_space c then rest else c ∷ s

-- The size of `candidate`.
abbrev pub candidate_size : ℕ
candidate_size = 256

abbrev pub is_candidate : Bytes → Bytes → Bool
is_candidate token key =
    ltb 0 (length key)
    && ltb (length key) candidate_size
    && ltb 0 (length (trim_token key))
    && str_eq (trim_token key) token

-- The loop of `fp_match_api_key`, with at most `n` rounds.
unfoldable pub key_loop : ℕ → Bytes → Bytes → Bool
key_loop zero token cursor = false
key_loop (suc n) token [] = false
key_loop (suc n) token (c ∷ s) =
    let start = skip_key_gap (c ∷ s) in
    let key = trim_right (item_of start) in
    let later = key_loop n token (past_comma (from_comma start)) in
    if length start == 0 then false else if is_candidate token key then true else later

-- `fp_match_api_key`; none is NULL.
unfoldable pub match_api_key : Bytes → Option Bytes → Bool
match_api_key token none = false
match_api_key [] (some csv) = false
match_api_key (c ∷ token) (some csv) = key_loop (length csv) (c ∷ token) csv

-- What `auth_source` names.
pub data Source : Type 0 where
  dev env_api_key api_key jwt : Source

-- What `fp_is_expert_authorized` answers: the source and `out_user`, if any, or the reason.
pub data Verdict : Type 0 where
  allowed : Source → Option User → Verdict
  inactive : Verdict  -- "Subscription inactive"
  refused : Verdict  -- "Expert mode requires Authorization: ApiKey <token>"

-- What `fp_authenticate_request` returns: 1 with the user, 0, or -1.
pub data Login : Type 0 where
  signed_in : User → Login
  no_token failed : Login

-- What of the request decides.
pub record Credentials : Type 0 where
  pub authorization : Bytes
  pub cookies : Bytes

-- `FP_EXPERT_API_KEYS` and `FP_EXPERT_API_KEY`; none is NULL.
pub record Config : Type 0 where
  pub keys_csv : Option Bytes
  pub single_key : Option Bytes

abbrev pub is_set : Option Bytes → Bool
is_set none = false
is_set (some s) = ltb 0 (length s)

-- `env_guard`.
abbrev pub env_guard : Config → Bool
env_guard config = is_set config.keys_csv || is_set config.single_key

-- The buffers `token` of the two functions, less the NUL.
abbrev pub expert_room : ℕ
expert_room = 255

abbrev pub login_room : ℕ
login_room = 511

-- `fp_auth_store` as the server sees it: what it reads to check tokens, the table of keys, how a user
-- and a subscription are found, and the clock.
pub record Accounts (Db : Type 0) : Type 0 where
  pub store : Store
  pub db : Db
  pub load_user : ℕ → Option User
  pub subscription : ℕ → Option Subscription
  pub now : ℤ

abbrev pub no_user : User
no_user = record { id = 0; email = []; name = []; provider = [] }

-- `fp_auth_load_user` into a user that is all zero.
abbrev pub loaded : Option User → User
loaded none = no_user
loaded (some user) = user

abbrev pub is_entitled : {Db : Type 0} → Accounts Db → User → Bool
is_entitled accounts user = has_active_subscription (accounts.subscription user.id) accounts.now

-- `fp_authenticate_request`; none is a NULL store.
unfoldable pub authenticate_request : {Db : Type 0} → Option (Accounts Db) → Credentials → Login
authenticate_request none request = failed
authenticate_request (some accounts) request =
    let header = extract_auth_token login_room request.authorization in
    let token =
      if length header == 0
      then get_cookie_value login_room (codes "fp_access") request.cookies
      else header in
    if length token == 0
    then no_token
    else elim (validate_access accounts.load_user accounts.store token accounts.now) [
      | none ↦ failed
      | some user ↦ signed_in user
    ]

-- The last part of `fp_is_expert_authorized`: a signed-in user.
unfoldable pub by_login : {Db : Type 0} → Option (Accounts Db) → Credentials → Verdict
by_login none request = refused
by_login (some accounts) request = elim (authenticate_request (some accounts) request) [
  | signed_in user ↦ if is_entitled accounts user then allowed jwt (some user) else inactive
  | no_token ↦ refused
  | failed ↦ refused
]

module _ {Db : Type 0} (table : KeyTable Db) where
  -- The key of a user, before that.
  unfoldable pub by_key : Option (Accounts Db) → Bytes → Credentials → Verdict
  by_key none token request = by_login {Db = Db} none request
  by_key (some accounts) token request =
      elim (api_key_allowed table accounts.db token (some (codes "expert"))) [
        | none ↦ by_login (some accounts) request
        | some id ↦
            let user = loaded (accounts.load_user id) in
            if is_entitled accounts user then allowed api_key (some user) else inactive
      ]

  -- `fp_is_expert_authorized`.
  unfoldable pub is_expert_authorized : Config → Option (Accounts Db) → Credentials → Verdict
  is_expert_authorized config accounts request =
      let token = extract_auth_token expert_room request.authorization in
      if not (env_guard config) && length token == 0
      then allowed dev none
      else if length token == 0
      then by_login accounts request
      else if match_api_key token config.keys_csv || match_api_key token config.single_key
      then allowed env_api_key none
      else by_key accounts token request
