-- ===== src/Auth/Issue/Accepted.antt =====
-- What `fp_auth_issue_tokens` of src/auth.c hands out.
use ferretptimize.Common.{
  ℕ, ◌^◌, ◌<◌, ◌≡◌, ◌∙◌, refl, sym, ap, Bool, true, false, Option, some, take, arith, Bool-cases,
  Option-cases, inl, inr,
}
use mathlib.Core.Path.{subst}
use mathlib.Core.Option.{some_inj}
use ferretptimize.Common.Int.{ℤ, pos, ltb_ℤ, ◌+ℤ◌}
use ferretptimize.Common.Bytes.{Bytes}
use ferretptimize.Auth.Sha256.{sha256_hex}
use ferretptimize.Auth.Token.{User, Store, encoded, build_access_token, validate_access}
use ferretptimize.Auth.Token.Payload.{IsPlainUser}
use ferretptimize.Auth.Token.RoundTrip.{Identified, validate-build_access_token}
use ferretptimize.Auth.Issue.{Tokens, store_refresh, issue_tokens}

module _ (insert_session : ℕ → Bytes → ℤ → Bool) where
  -- An issued pair is a built access token and a refresh token whose session is stored.
  pub record IsIssued (store : Store) (ttl : ℤ) (user : User) (now : ℤ) (random : Option Bytes)
      (tokens : Tokens) : Type 0 where
    pub built :
        build_access_token store user now ≡ some (tokens.access_token, tokens.access_expires_at)
    pub raw : Bytes
    pub drawn : random ≡ some raw
    pub refresh : tokens.refresh_token ≡ take 255 (encoded raw)
    pub until : tokens.refresh_expires_at ≡ now +ℤ ttl
    pub stored :
        insert_session user.id (sha256_hex tokens.refresh_token) tokens.refresh_expires_at ≡ true

  issue_tokens-IsIssued :
      (store : Store) (ttl : ℤ) (user : User) (now : ℤ) (random : Option Bytes) (tokens : Tokens)
      → issue_tokens insert_session store ttl user now random ≡ some tokens
      → IsIssued store ttl user now random tokens
  unfolding issue_tokens store_refresh
  issue_tokens-IsIssued store ttl user now random tokens e =
      elim (Option-cases (build_access_token store user now)) [
        | inl f ↦ absurd (ground (arith, f, e))
        | inr ((token, exp), f) ↦ elim (Option-cases random) [
          | inl g ↦ absurd (ground (arith, f, g, e))
          | inr (raw, g) ↦
              let refresh = take 255 (encoded raw) in
              let made : Tokens = record {
                access_token = token;
                refresh_token = refresh;
                access_expires_at = exp;
                refresh_expires_at = now +ℤ ttl;
              } in
              elim (Bool-cases (insert_session user.id (sha256_hex refresh) (now +ℤ ttl))) [
                | inr refused ↦ absurd (ground (arith, f, g, refused, e))
                | inl stored ↦
                    let whole : issue_tokens insert_session store ttl user now random ≡ some made =
                      rw (issue_tokens, f, g, stored) refl in
                    let same : made ≡ tokens = some_inj.0 (sym whole ∙ e) in
                    subst (IsIssued store ttl user now random) same (record {
                      built = f;
                      raw = raw;
                      drawn = g;
                      refresh = refl;
                      until = refl;
                      stored = stored;
                    })
              ]
        ]
      ]

  -- The access token of an issued pair is accepted until it expires and identifies its user, under the
  -- conditions of a built token, and the session of its refresh token is stored with its hash.
  pub issue_tokens-accepted :
      (load_user : ℕ → Option User) (store : Store) (ttl : ℤ) (user : User) (now later : ℤ)
      (exp : ℕ) (random : Option Bytes) (tokens : Tokens)
      → issue_tokens insert_session store ttl user now random ≡ some tokens
      → IsPlainUser user
      → tokens.access_expires_at ≡ pos exp
      → exp < 2 ^ 63
      → ltb_ℤ (pos exp) later ≡ false
      → Identified load_user user.id (validate_access load_user store tokens.access_token later)
        × (insert_session user.id (sha256_hex tokens.refresh_token) tokens.refresh_expires_at
            ≡ true)
  issue_tokens-accepted load_user store ttl user now later exp random tokens e plain until small
        fresh =
      let issued = issue_tokens-IsIssued store ttl user now random tokens e in
      let built = issued.built ∙ ap (λ (t : ℤ). some (tokens.access_token, t)) until in
      (
        validate-build_access_token load_user store user now later exp tokens.access_token plain
            small built fresh,
        issued.stored,
      )
