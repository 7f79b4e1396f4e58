-- ===== src/Auth/Issue.antt =====
-- Pairs of tokens and the secret of src/auth.c: `fp_auth_issue_tokens`, `fp_auth_generate_secret` and
-- `fp_trim_inplace`, and `fp_trim_token` of src/server.c. What /dev/urandom gives, if it can be read,
-- and the insertion of a session are parameters.
pub mod Trim
pub mod Accepted
use ferretptimize.Common.{
  ℕ, Bool, true, false, Option, none, some, List, [], ◌∷◌, if◌then◌else◌, take,
}
use ferretptimize.Common.Int.{ℤ, ◌+ℤ◌}
use ferretptimize.Common.Bytes.{Bytes, codes}
use ferretptimize.Auth.Sha256.{hex_text, sha256_hex}
use ferretptimize.Auth.Scope.{trim_right}
use ferretptimize.Auth.Fields.{skip_spaces}
use ferretptimize.Auth.Token.{User, Store, encoded, build_access_token}

-- `fp_trim_inplace` cuts at the end first, `fp_trim_token` at the start.
unfoldable pub trim_inplace : Bytes → Bytes
trim_inplace s = skip_spaces (trim_right s)

unfoldable pub trim_token : Bytes → Bytes
trim_token s = trim_right (skip_spaces s)

-- `fp_auth_generate_secret`, from 32 random bytes.
unfoldable pub generate_secret : Option Bytes → Bytes
generate_secret none = codes "fallback-secret"
generate_secret (some buf) = take 127 (hex_text buf)

-- `fp_auth_tokens`.
pub record Tokens : Type 0 where
  pub access_token : Bytes
  pub refresh_token : Bytes
  pub access_expires_at : ℤ
  pub refresh_expires_at : ℤ

module _ (insert_session : ℕ → Bytes → ℤ → Bool) where
  -- `fp_auth_store_refresh`.
  unfoldable pub store_refresh : ℕ → Bytes → ℤ → Bool
  store_refresh user_id refresh_token expires_at =
      insert_session user_id (sha256_hex refresh_token) expires_at

  -- `fp_auth_issue_tokens`, with its allocations granted.
  unfoldable pub issue_tokens : Store → ℤ → User → ℤ → Option Bytes → Option Tokens
  issue_tokens store refresh_ttl_seconds user now random =
      elim (build_access_token store user now) [
        | none ↦ none
        | some (token, exp) ↦ elim random [
          | none ↦ none
          | some refresh_raw ↦
              let refresh = take 255 (encoded refresh_raw) in
              let until = now +ℤ refresh_ttl_seconds in
              let tokens : Tokens = record {
                access_token = token;
                refresh_token = refresh;
                access_expires_at = exp;
                refresh_expires_at = until;
              } in
              if store_refresh user.id refresh until then some tokens else none
        ]
      ]
