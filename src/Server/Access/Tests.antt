-- ===== src/Server/Access/Tests.antt =====
-- Requests that src/server.c lets into expert mode, and some that it does not.
use ferretptimize.Common.{ℕ, ◌≡◌, ◌≢◌, refl, sym, true, Option, none, some, [], ◌∷◌, arith}
use ferretptimize.Common.Int.{pos}
use ferretptimize.Common.Bytes.{Bytes, codes, has_prefix, str_eq, case_eq}
use ferretptimize.Auth.Fields.{skip_spaces}
use ferretptimize.Auth.Scope.{
  scope_allows, scope_loop, skip_separators, item_of, from_comma, trim_right,
}
use ferretptimize.Auth.Scope.Items.{split_commas}
use ferretptimize.Auth.Issue.{trim_token}
use ferretptimize.Auth.Token.{User}
use ferretptimize.Auth.Keys.{
  KeyTable, updated, unless_owned, api_key_allowed, revoke_api_keys, has_active_subscription,
  status_allows_entitlement,
}
use ferretptimize.Server.Access.{
  extract_auth_token, skip_cookie_gap, cookie_of, next_cookie, cookie_loop, get_cookie_value,
  skip_key_gap, key_loop, match_api_key, Credentials, Config, Accounts, allowed, refused, api_key,
  by_key, by_login, is_expert_authorized,
}
use ferretptimize.Server.Access.Keys.{lists_key, match_api_key_lem}
use ferretptimize.Server.Access.Entitled.{
  Grounds, is_expert_authorized-Grounds, after_revoke, revoked-key_rows,
}
use ferretptimize.Auth.Keys.Rows.{
  ApiKeys, active, has_hash, find_row, find_key, revoke_row, revoke_keys, record_audit,
}
use ferretptimize.Auth.Keys.Stored.{key_rows, updated_inj}
use ferretptimize.Auth.Sha256.{
  update, absorb, transform, rounds, round, extend, load_words, final, be64, hash_bytes, sha256,
  sha256_hex,
}

-- A table with one key.
abbrev one_key : KeyTable (Option (ℕ × Bytes))
one_key = record {
  insert = λ db row. none;
  find_active = λ db hash. db;
  revoke = λ db user. updated (unless_owned user db);
  audit = λ db user event metadata. db;
  find-insert = λ db db' row e. absurd (ground (arith, e));
  find-insert_ne = λ db db' row hash e apart. absurd (ground (arith, e));
  find-revoke = λ db db' user hash e. updated_inj db' (unless_owned user db) (sym e);
  find-audit = λ db user event metadata hash. refl;
}

abbrev named : ℕ → User
named id = record { id = id; email = []; name = []; provider = [] }

abbrev accounts : Accounts (Option (ℕ × Bytes))
accounts = record {
  store = record { jwt_secret = codes "secret"; access_ttl_seconds = pos 900 };
  db = some (8, codes "expert");
  load_user = λ id. some (named id);
  subscription = λ id. some (record { status = codes "active"; current_period_end = pos 0 });
  now = pos 100;
}

abbrev no_keys : Config
no_keys = record { keys_csv = none; single_key = none }

abbrev with_token : Credentials
with_token = record { authorization = codes "ApiKey abc"; cookies = [] }

token_of_header : extract_auth_token 255 (codes " apiKEY  abc ") ≡ codes "abc"
unfolding extract_auth_token skip_spaces has_prefix trim_token trim_right
token_of_header = refl

cookie_value :
    get_cookie_value 511 (codes "fp_access") (codes "fp_accessory=1; fp_access= ab ;x=2")
    ≡ codes "ab"
unfolding get_cookie_value cookie_loop skip_cookie_gap cookie_of next_cookie has_prefix trim_token
    trim_right skip_spaces
cookie_value = refl

key_in_list : match_api_key (codes "k2") (some (codes "k1, , k2 ")) ≡ true
unfolding match_api_key key_loop skip_key_gap item_of from_comma trim_right trim_token skip_spaces
    str_eq
key_in_list = refl

let_in :
    is_expert_authorized one_key no_keys (some accounts) with_token
    ≡ allowed api_key (some (named 8))
unfolding is_expert_authorized extract_auth_token skip_spaces has_prefix trim_token trim_right
    match_api_key by_key api_key_allowed scope_allows scope_loop skip_separators item_of from_comma
    case_eq str_eq has_active_subscription status_allows_entitlement
let_in = refl

-- A token that is not known is refused even where no key is configured.
turned_away : is_expert_authorized one_key no_keys none with_token ≡ refused
unfolding is_expert_authorized extract_auth_token skip_spaces has_prefix trim_token trim_right
    match_api_key by_key by_login
turned_away = refl

match_api_key_lem_example :
    match_api_key (codes "k2") (some (codes "k1,k2"))
    ≡ lists_key (codes "k2") (split_commas (codes "k1,k2"))
match_api_key_lem_example = match_api_key_lem b'k' (codes "2") (codes "k1,k2")

is_expert_authorized-Grounds_example :
    Grounds one_key no_keys (some accounts) with_token api_key (some (named 8))
is_expert_authorized-Grounds_example =
    is_expert_authorized-Grounds one_key no_keys (some accounts) with_token api_key (some (named 8))
      let_in

-- A row of user 7, and one of user 8 for the key `abc`.
abbrev two_rows : ApiKeys
unfolding has_hash str_eq
two_rows = record {
  rows =
      record {
        key = record { user_id = 7; key_hash = codes "00"; scope = codes "expert"; label = [] };
        status = active;
      }
      ∷ record {
        key = record {
          user_id = 8;
          key_hash = codes "ba7816bf8f01cfea414140de5dae2223b00361a396177a9cb410ff61f20015ad";
          scope = codes "expert";
          label = [];
        };
        status = active;
      }
      ∷ [];
  is_unique = (refl, (refl, tt));
  prepares = true;
  steps = true;
  audits = [];
}

abbrev stored : Accounts ApiKeys
stored = record {
  store = accounts.store;
  db = two_rows;
  load_user = accounts.load_user;
  subscription = accounts.subscription;
  now = accounts.now;
}

still_in :
    is_expert_authorized key_rows no_keys
      (some (after_revoke key_rows no_keys with_token 7 stored none))
      with_token
    ≡ allowed api_key (some (named 8))
unfolding is_expert_authorized extract_auth_token skip_spaces has_prefix trim_token trim_right
    match_api_key by_key api_key_allowed scope_allows scope_loop skip_separators item_of from_comma
    case_eq str_eq has_active_subscription status_allows_entitlement revoke_api_keys revoke_keys
    revoke_row record_audit find_key find_row update absorb transform rounds round extend load_words
    final be64 hash_bytes sha256 sha256_hex two_rows
still_in = refl

revoked-key_rows_example : (named 8).id ≢ 7
unfolding two_rows
revoked-key_rows_example =
    revoked-key_rows no_keys with_token 7 stored none (named 8) refl (λ id v e. ground (arith, e))
      (ground arith) still_in
