-- ===== src/Auth/Tests.antt =====
-- Tokens, scopes and comparisons of src/auth.c at concrete inputs.
use ferretptimize.Common.{Bool, ℕ, ◌≡◌, refl, true, Option, none, some, arith}
use ferretptimize.Common.Int.{ℤ, pos}
use ferretptimize.Common.Bytes.{Bytes, codes, has_prefix, case_eq, str_eq}
use ferretptimize.Base64.{
  url_encode, encode_body, symbol, to_url, strip, url_decode, decode_groups, decode_group, padded,
  from_url, value,
}
use ferretptimize.Json.{auth_escape, auth_escape_from, auth_escape_byte}
use ferretptimize.Auth.Sha256.{
  update, absorb, transform, rounds, round, extend, load_words, final, be64, hash_bytes,
  hmac_sha256, key_block, sha256_hex,
}
use ferretptimize.Auth.Compare.{consttime_equal, differences}
use ferretptimize.Auth.Scope.{
  scope_allows, scope_loop, skip_separators, item_of, from_comma, trim_right,
}
use ferretptimize.Auth.Fields.{
  json_parse_int64, json_parse_string, find_text, find_byte, skip_spaces, skip_blanks, read_int64,
  read_digits, unescape,
}
use ferretptimize.Auth.Token.{
  User, Store, payload_text, decimal, digits_before, signed_token, signing_input,
  build_access_token, validate_access, check_signed, payload_user, c_string, cut_at_dot,
}
use ferretptimize.Auth.Token.Text.{is_text}
use ferretptimize.Auth.Token.Payload.{IsPlainUser}
use ferretptimize.Auth.Token.Sound.{IsSigned, validate_access-IsSigned}
use ferretptimize.Auth.Issue.{Tokens, store_refresh, issue_tokens, trim_inplace}
use ferretptimize.Auth.Issue.Accepted.{issue_tokens-accepted}
use ferretptimize.Auth.Token.RoundTrip.{Identified, validate-build_access_token}

abbrev secret : Bytes
secret = codes "secret"

abbrev store : Store
store = record { jwt_secret = secret; access_ttl_seconds = pos 900 }

abbrev user_named : Bytes → User
user_named name = record {
  id = 7;
  email = codes "ann@example.org";
  name = name;
  provider = codes "google";
}

abbrev ann : User
ann = user_named (codes "Ann")

abbrev nobody : ℕ → Option User
nobody id = none

abbrev token_for : User → Bytes
token_for user = signed_token secret (payload_text user (pos 1900))

builds : build_access_token store ann (pos 1000) ≡ some (token_for ann, pos 1900)
unfolding build_access_token payload_text decimal digits_before auth_escape auth_escape_from
    auth_escape_byte signed_token signing_input update absorb transform rounds round extend
    load_words final be64 hash_bytes hmac_sha256 key_block url_encode encode_body symbol to_url
    strip
builds = refl

accepts : validate_access nobody store (token_for ann) (pos 1500) ≡ some ann
unfolding validate_access check_signed payload_user json_parse_int64 json_parse_string find_text
    find_byte has_prefix skip_spaces skip_blanks read_int64 read_digits unescape c_string cut_at_dot
    consttime_equal differences payload_text decimal digits_before auth_escape auth_escape_from
    auth_escape_byte signed_token signing_input update absorb transform rounds round extend
    load_words final be64 hash_bytes hmac_sha256 key_block url_encode encode_body symbol to_url
    strip url_decode decode_groups decode_group padded from_url value
accepts = refl

late : validate_access nobody store (token_for ann) (pos 1901) ≡ none
unfolding validate_access check_signed payload_user json_parse_int64 json_parse_string find_text
    find_byte has_prefix skip_spaces skip_blanks read_int64 read_digits unescape c_string cut_at_dot
    consttime_equal differences payload_text decimal digits_before auth_escape auth_escape_from
    auth_escape_byte signed_token signing_input update absorb transform rounds round extend
    load_words final be64 hash_bytes hmac_sha256 key_block url_encode encode_body symbol to_url
    strip url_decode decode_groups decode_group padded from_url value
late = refl

-- A user whose name is `exp` gets a token that is refused from the start.
named_exp :
    (build_access_token store (user_named (codes "exp")) (pos 1000)
      ≡ some (token_for (user_named (codes "exp")), pos 1900))
    × (validate_access nobody store (token_for (user_named (codes "exp"))) (pos 1000) ≡ none)
unfolding build_access_token validate_access check_signed payload_user json_parse_int64
    json_parse_string find_text find_byte has_prefix skip_spaces skip_blanks read_int64 read_digits
    unescape c_string cut_at_dot consttime_equal differences payload_text decimal digits_before
    auth_escape auth_escape_from auth_escape_byte signed_token signing_input update absorb transform
    rounds round extend load_words final be64 hash_bytes hmac_sha256 key_block url_encode
    encode_body symbol to_url strip url_decode decode_groups decode_group padded from_url value
named_exp = (refl, refl)

ann-IsPlainUser : IsPlainUser ann
unfolding auth_escape auth_escape_from auth_escape_byte is_text find_text has_prefix
ann-IsPlainUser = record {
  positive = omega arith;
  small = omega arith;
  provider = record { text = refl; no_key = refl };
  email = record { text = refl; no_key = refl };
  name = record { text = refl; no_key = refl };
}

validate_access-IsSigned_example : IsSigned secret (token_for ann) (pos 1500)
validate_access-IsSigned_example =
    validate_access-IsSigned nobody store (token_for ann) (pos 1500) ann accepts

validate-build_access_token_example :
    Identified nobody 7 (validate_access nobody store (token_for ann) (pos 1500))
validate-build_access_token_example =
    validate-build_access_token nobody store ann (pos 1000) (pos 1500) 1900 (token_for ann)
      ann-IsPlainUser (omega arith) builds refl

scope_expert : scope_allows (some (codes "basic, Expert ")) (some (codes "expert")) ≡ true
unfolding scope_allows scope_loop skip_separators item_of from_comma trim_right case_eq str_eq
scope_expert = refl

abbrev stores : ℕ → Bytes → ℤ → Bool
stores user_id hash expires_at = true

abbrev issued : Tokens
issued = record {
  access_token = token_for ann;
  refresh_token = codes "cmFuZG9t";
  access_expires_at = pos 1900;
  refresh_expires_at = pos 3000;
}

issues : issue_tokens stores store (pos 2000) ann (pos 1000) (some (codes "random")) ≡ some issued
unfolding issue_tokens store_refresh build_access_token validate_access check_signed payload_user
    json_parse_int64 json_parse_string find_text find_byte has_prefix skip_spaces skip_blanks
    read_int64 read_digits unescape c_string cut_at_dot consttime_equal differences payload_text
    decimal digits_before auth_escape auth_escape_from auth_escape_byte signed_token signing_input
    update absorb transform rounds round extend load_words final be64 hash_bytes hmac_sha256
    key_block url_encode encode_body symbol to_url strip url_decode decode_groups decode_group
    padded from_url value
issues = refl

issue_tokens-accepted_example :
    Identified nobody 7 (validate_access nobody store (token_for ann) (pos 1500))
    × (stores 7 (sha256_hex (codes "cmFuZG9t")) (pos 3000) ≡ true)
issue_tokens-accepted_example =
    issue_tokens-accepted stores nobody store (pos 2000) ann (pos 1000) (pos 1500) 1900
      (some (codes "random")) issued issues ann-IsPlainUser refl (omega arith) refl

trims : trim_inplace (codes " \t secret \n") ≡ codes "secret"
unfolding trim_inplace trim_right skip_spaces
trims = refl
