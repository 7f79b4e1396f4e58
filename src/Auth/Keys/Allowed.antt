-- ===== src/Auth/Keys/Allowed.antt =====
-- Which API keys are allowed after one is made, and after a user's are revoked.
use ferretptimize.Common.{
  ℕ, zero, suc, ◌≤◌, ◌<◌, ◌≡◌, ◌≢◌, ◌∙◌, refl, sym, ap, true, false, Option, none, some, [], ◌∷◌,
  if◌then◌else◌, arith, length, take, take-all, Option-cases, Bool-cases, ◌⊎◌, inl, inr,
}
use mathlib.Core.Option.{some_inj}
use ferretptimize.Common.Bytes.{Bytes, codes, or_empty}
use ferretptimize.Base64.{url_encode}
use ferretptimize.Auth.Sha256.{sha256_hex}
use ferretptimize.Auth.Scope.{scope_allows}
use ferretptimize.Auth.Keys.{
  KeyRow, KeyTable, Updated, unprepared, step_failed, updated, unless_owned, with_reason,
  scope_or_expert, generate_api_key, api_key_allowed, revoke_api_keys,
}

Updated-cases :
    {Db : Type 0} (result : Updated Db)
    → (result ≡ unprepared) ⊎ (result ≡ step_failed) ⊎ ((db : Db) × (result ≡ updated db))
Updated-cases unprepared = inl refl
Updated-cases step_failed = inr (inl refl)
Updated-cases (updated db) = inr (inr (db, refl))

module _ {Db : Type 0} (table : KeyTable Db) where
  allowed-found :
      (db : Db) (token : Bytes) (required : Option Bytes) (user : ℕ) (scope : Bytes)
      → 0 < length token
      → table.find_active db (sha256_hex token) ≡ some (user, scope)
      → api_key_allowed table db token required
        ≡ (if scope_allows (some scope) required then some user else none)
  unfolding api_key_allowed
  allowed-found db [] required user scope h e = absurd (omega arith)
  allowed-found db (c ∷ token) required user scope h e = rw (api_key_allowed, e) refl

  allowed-same :
      (db db' : Db) (token : Bytes) (required : Option Bytes)
      → table.find_active db' (sha256_hex token) ≡ table.find_active db (sha256_hex token)
      → api_key_allowed table db' token required ≡ api_key_allowed table db token required
  unfolding api_key_allowed
  allowed-same db db' [] required e = refl
  allowed-same db db' (c ∷ token) required e = rw (api_key_allowed, e) refl

  allowed-other :
      (db db' : Db) (token : Bytes) (required : Option Bytes) (user v : ℕ)
      → table.find_active db' (sha256_hex token)
        ≡ unless_owned user (table.find_active db (sha256_hex token))
      → v ≢ user
      → api_key_allowed table db token required ≡ some v
      → api_key_allowed table db' token required ≡ some v
  unfolding api_key_allowed unless_owned
  allowed-other db db' [] required user v e other h = h
  allowed-other db db' (c ∷ token) required user v e other h =
      elim (Option-cases (table.find_active db (sha256_hex (c ∷ token)))) [
        | inl f ↦ absurd (ground (arith, f, h))
        | inr ((owner, scope), f) ↦ elim (Bool-cases (scope_allows (some scope) required)) [
          | inr refused ↦ absurd (ground (arith, f, refused, h))
          | inl allowed ↦ ground (arith, f, allowed, h, e, other)
        ]
      ]

  allowed-revoked :
      (db : Db) (token : Bytes) (required : Option Bytes) (user : ℕ) (found : Option (ℕ × Bytes))
      → table.find_active db (sha256_hex token) ≡ unless_owned user found
      → api_key_allowed table db token required ≢ some user
  unfolding api_key_allowed unless_owned
  allowed-revoked db [] required user found e is_user = cc
  allowed-revoked db (c ∷ token) required user none e is_user = ground (arith, e, is_user)
  allowed-revoked db (c ∷ token) required user (some (owner, scope)) e is_user =
      ground (arith, e, is_user)

  -- A key that was made for a buffer with room for it is allowed for its user in the scopes it was made
  -- for, or in expert if none was named; and every other key is as before.
  pub generate_api_key-allowed :
      (db db' : Db) (raw : Bytes) (user : ℕ) (scope label : Option Bytes) (out_len : ℕ)
      (out : Bytes)
      → 0 < length (or_empty (url_encode true raw))
      → length (or_empty (url_encode true raw)) < out_len
      → generate_api_key table db (some raw) user scope label out_len ≡ some (db', out)
      → ((required : Option Bytes)
          → api_key_allowed table db' out required
            ≡ (if scope_allows (some (scope_or_expert scope)) required then some user else none))
        × ((token : Bytes) (required : Option Bytes)
            → sha256_hex out ≢ sha256_hex token
            → api_key_allowed table db' token required ≡ api_key_allowed table db token required)
  unfolding generate_api_key
  generate_api_key-allowed db db' raw user scope label zero out some_key room e =
      absurd (omega arith)
  generate_api_key-allowed db db' raw user scope label (suc n) out some_key room e =
      let token = or_empty (url_encode true raw) in
      let row : KeyRow = record {
        user_id = user;
        key_hash = sha256_hex token;
        scope = scope_or_expert scope;
        label = or_empty label;
      } in
      elim (Option-cases (table.insert db row)) [
        | inl f ↦ absurd (ground (arith, f, e))
        | inr (after, f) ↦
            let fits : length token ≤ n = omega arith in
            let made : some (after, take n token) ≡ some (db', out) =
              sym (
                ap
                  (λ (o : Option Db). elim o as (λ r. Option (Db × Bytes)) [
                    | none ↦ none
                    | some d ↦ some (d, take n token)
                  ])
                  f)
              ∙ e in
            let both = some_inj.0 made in
            let same_db : after ≡ db' = ap (λ (r : Db × Bytes). r.0) both in
            let whole : token ≡ out =
              sym (take-all n token fits) ∙ ap (λ (r : Db × Bytes). r.1) both in
            rw (← same_db, ← whole)
              (
                (λ required.
                    allowed-found after token required user row.scope some_key
                      (table.find-insert db after row f)),
                (λ other required apart.
                    allowed-same db after other required
                      (table.find-insert_ne db after row (sha256_hex other) f apart)),
              )
      ]

  -- Once the keys of a user are revoked, no key is allowed for that user, and keys of other users are
  -- as before; if the statement fails, every key is as before.
  pub revoke_api_keys-allowed :
      (db : Db) (user : ℕ) (reason : Option Bytes) (token : Bytes) (required : Option Bytes)
      → let after = revoke_api_keys table db user reason in
        (after.1 ≡ true → api_key_allowed table after.0 token required ≢ some user)
        × ((v : ℕ)
            → v ≢ user
            → api_key_allowed table db token required ≡ some v
            → api_key_allowed table after.0 token required ≡ some v)
        × (after.1 ≡ false
            → api_key_allowed table after.0 token required
              ≡ api_key_allowed table db token required)
  unfolding revoke_api_keys
  revoke_api_keys-allowed db user reason token required =
      elim (Updated-cases (table.revoke db user)) [
        | inl f ↦
            rw (revoke_api_keys, f) ((λ failed. absurd (cc)), (λ v other h. h), (λ done. refl))
        | inr (inl f) ↦
            let kept =
              allowed-same db (table.audit db user (codes "api_keys_revoked") (with_reason reason))
                token required
                (table.find-audit db user (codes "api_keys_revoked") (with_reason reason)
                  (sha256_hex token)) in
            rw (revoke_api_keys, f)
              ((λ failed. absurd (cc)), (λ v other h. kept ∙ h), (λ done. kept))
        | inr (inr (db', f)) ↦
            let after = table.audit db' user (codes "api_keys_revoked") (with_reason reason) in
            let gone =
              table.find-audit db' user (codes "api_keys_revoked") (with_reason reason)
                (sha256_hex token)
              ∙ table.find-revoke db db' user (sha256_hex token) f in
            rw (revoke_api_keys, f)
              (
                (λ done.
                    allowed-revoked after token required user
                      (table.find_active db (sha256_hex token)) gone),
                (λ v other h. allowed-other db after token required user v gone other h),
                (λ failed. absurd (cc)),
              )
      ]
