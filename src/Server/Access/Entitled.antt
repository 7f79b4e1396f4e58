-- ===== src/Server/Access/Entitled.antt =====
-- On what grounds src/server.c lets a request into expert mode.
use ferretptimize.Common.{
  ℕ, ◌≡◌, ◌≢◌, ◌∙◌, ◌||◌, not, ◌&&◌, refl, sym, ap, true, false, Option, none, some, [], length,
  ◌==◌, if◌then◌else◌, arith, if-cases,
}
use mathlib.Core.Path.{subst}
use mathlib.Core.Option.{some_inj}
use ferretptimize.Common.Bytes.{Bytes, codes}
use ferretptimize.Auth.Keys.{KeyTable, api_key_allowed, revoke_api_keys}
use ferretptimize.Auth.Keys.Allowed.{revoke_api_keys-allowed}
use ferretptimize.Auth.Keys.Rows.{ApiKeys, works}
use ferretptimize.Auth.Keys.Stored.{key_rows, revoke_api_keys-key_rows}
use ferretptimize.Auth.Token.{User}
use ferretptimize.Server.Access.{
  extract_auth_token, match_api_key, Source, dev, env_api_key, api_key, jwt, Verdict, allowed,
  inactive, refused, Login, signed_in, no_token, failed, Credentials, Config, env_guard,
  expert_room, Accounts, loaded, is_entitled, authenticate_request, by_login, by_key,
  is_expert_authorized,
}

abbrev pub token_of : Credentials → Bytes
token_of request = extract_auth_token expert_room request.authorization

-- Why a request is let in, under the source and as the user that the code reports.
pub data Grounds {Db : Type 0} (table : KeyTable Db) (config : Config)
    (accounts : Option (Accounts Db)) (request : Credentials) : Source → Option User → Type 0 where
  in_development :
      env_guard config ≡ false
      → length (token_of request) ≡ 0
      → Grounds table config accounts request dev none
  by_env_key :
      (match_api_key (token_of request) config.keys_csv
          || match_api_key (token_of request) config.single_key)
        ≡ true
      → Grounds table config accounts request env_api_key none
  by_user_key :
      (acc : Accounts Db) (id : ℕ)
      → accounts ≡ some acc
      → api_key_allowed table acc.db (token_of request) (some (codes "expert")) ≡ some id
      → is_entitled acc (loaded (acc.load_user id)) ≡ true
      → Grounds table config accounts request api_key (some (loaded (acc.load_user id)))
  by_sign_in :
      (acc : Accounts Db) (user : User)
      → accounts ≡ some acc
      → authenticate_request accounts request ≡ signed_in user
      → is_entitled acc user ≡ true
      → Grounds table config accounts request jwt (some user)

module _ {Db : Type 0} (table : KeyTable Db) (config : Config) (request : Credentials) where
  Grounded : Option (Accounts Db) → Verdict → Type 0
  Grounded accounts (allowed source user) = Grounds table config accounts request source user
  Grounded accounts inactive = Unit {0}
  Grounded accounts refused = Unit {0}

  by_login-Grounded :
      (accounts : Option (Accounts Db)) → Grounded accounts (by_login accounts request)
  unfolding by_login Grounded
  by_login-Grounded none = tt
  by_login-Grounded (some acc) = go (authenticate_request (some acc) request) refl
    where
      go :
          (login : Login)
          → authenticate_request (some acc) request ≡ login
          → Grounded (some acc) (elim login [
            | signed_in user ↦ if is_entitled acc user then allowed jwt (some user) else inactive
            | no_token ↦ refused
            | failed ↦ refused
          ])
      go (signed_in user) e =
          if-cases (Grounded (some acc)) (is_entitled acc user) (allowed jwt (some user)) inactive
            (λ entitled. by_sign_in acc user refl e entitled) (λ lapsed. tt)
      go no_token e = tt
      go failed e = tt

  by_key-Grounded :
      (accounts : Option (Accounts Db))
      → Grounded accounts (by_key table accounts (token_of request) request)
  unfolding by_key Grounded
  by_key-Grounded none = by_login-Grounded none
  by_key-Grounded (some acc) =
      go (api_key_allowed table acc.db (token_of request) (some (codes "expert"))) refl
    where
      go :
          (owner : Option ℕ)
          → api_key_allowed table acc.db (token_of request) (some (codes "expert")) ≡ owner
          → Grounded (some acc) (elim owner [
            | none ↦ by_login (some acc) request
            | some id ↦
                if is_entitled acc (loaded (acc.load_user id))
                then allowed api_key (some (loaded (acc.load_user id)))
                else inactive
          ])
      go none e = by_login-Grounded (some acc)
      go (some id) e =
          let user = loaded (acc.load_user id) in
          if-cases (Grounded (some acc)) (is_entitled acc user) (allowed api_key (some user))
            inactive (λ entitled. by_user_key acc id refl e entitled) (λ lapsed. tt)

  authorized-Grounded :
      (accounts : Option (Accounts Db))
      → Grounded accounts (is_expert_authorized table config accounts request)
  unfolding is_expert_authorized Grounded
  authorized-Grounded accounts =
      if-cases (Grounded accounts) (not (env_guard config) && length (token_of request) == 0) _ _
        (λ e. in_development (ground (arith, e)) (ground (arith, e)))
        (λ e.
          if-cases (Grounded accounts) (length (token_of request) == 0) _ _
            (λ missing. by_login-Grounded accounts)
            (λ present.
              if-cases (Grounded accounts)
                (match_api_key (token_of request) config.keys_csv
                  || match_api_key (token_of request) config.single_key)
                _ _ (λ known. by_env_key known) (λ unknown. by_key-Grounded accounts)))

-- A request is let into expert mode in four ways only: without any key configured and without a token;
-- with a token that is one of the configured keys; with an API key for expert mode whose user has an
-- entitlement; or signed in as a user who has one.
pub is_expert_authorized-Grounds :
    {Db : Type 0} (table : KeyTable Db) (config : Config) (accounts : Option (Accounts Db))
    (request : Credentials) (source : Source) (user : Option User)
    → is_expert_authorized table config accounts request ≡ allowed source user
    → Grounds table config accounts request source user
unfolding Grounded
is_expert_authorized-Grounds table config accounts request source user e =
    subst (Grounded table config request accounts) e
      (authorized-Grounded table config request accounts)

-- The id of a user that is loaded for another id, or that is not found, is another.
loaded-id :
    (id user : ℕ) (found : Option User)
    → ((u : User) → found ≡ some u → u.id ≡ id)
    → user ≢ 0
    → id ≢ user
    → (loaded found).id ≢ user
loaded-id id user none same known apart e = known (sym e)
loaded-id id user (some u) same known apart e = apart (sym (same u refl) ∙ e)

module _ {Db : Type 0} (table : KeyTable Db) (config : Config) (request : Credentials)
    (user : ℕ) where
  abbrev pub after_revoke : Accounts Db → Option Bytes → Accounts Db
  after_revoke acc reason = record acc { db = (revoke_api_keys table acc.db user reason).0 }

  Grounds-revoked :
      (acc : Accounts Db) (reason : Option Bytes) (source : Source) (as_user : Option User)
      → (revoke_api_keys table acc.db user reason).1 ≡ true
      → ((id : ℕ) (u : User) → acc.load_user id ≡ some u → u.id ≡ id)
      → user ≢ 0
      → Grounds table config (some (after_revoke acc reason)) request source as_user
      → source ≡ api_key
      → (u : User) → as_user ≡ some u
      → u.id ≢ user
  Grounds-revoked acc reason source as_user done loads known
        (by_user_key other id same found entitled) e u eu =
      let back : after_revoke acc reason ≡ other = some_inj.0 same in
      let is_u : loaded (acc.load_user id) ≡ u =
        ap (λ (a : Accounts Db). loaded (a.load_user id)) back ∙ some_inj.0 eu in
      let allowed_now : api_key_allowed table (after_revoke acc reason).db (token_of request)
            (some (codes "expert"))
          ≡ some id =
        ap
          (λ (a : Accounts Db).
            api_key_allowed table a.db (token_of request) (some (codes "expert")))
          back
        ∙ found in
      let apart : id ≢ user = λ i.
        (revoke_api_keys-allowed table acc.db user reason (token_of request)
            (some (codes "expert"))).0
          done (allowed_now ∙ ap some i) in
      λ h.
        loaded-id id user (acc.load_user id) (loads id) known apart
          (ap (λ (x : User). x.id) is_u ∙ h)
  Grounds-revoked acc reason source as_user done loads known _ e u eu =
      λ h. absurd (ground (arith, e))

  -- Once the keys of a user are revoked in a table with the laws, no API key lets a request in as that
  -- user.
  pub revoked-api_key :
      (acc : Accounts Db) (reason : Option Bytes) (u : User)
      → (revoke_api_keys table acc.db user reason).1 ≡ true
      → ((id : ℕ) (v : User) → acc.load_user id ≡ some v → v.id ≡ id)
      → user ≢ 0
      → is_expert_authorized table config (some (after_revoke acc reason)) request
        ≡ allowed api_key (some u)
      → u.id ≢ user
  revoked-api_key acc reason u done loads known e =
      Grounds-revoked acc reason api_key (some u) done loads known
        (is_expert_authorized-Grounds table config (some (after_revoke acc reason)) request api_key
          (some u) e)
        refl u refl

-- With the rows of `api_keys` and a database that works: once the keys of a user are revoked, no API key
-- lets a request in as that user, where users have their own ids, and none has 0.
pub revoked-key_rows :
    (config : Config) (request : Credentials) (user : ℕ) (acc : Accounts ApiKeys)
    (reason : Option Bytes) (u : User)
    → works acc.db ≡ true
    → ((id : ℕ) (v : User) → acc.load_user id ≡ some v → v.id ≡ id)
    → user ≢ 0
    → is_expert_authorized key_rows config
        (some (after_revoke key_rows config request user acc reason))
        request
      ≡ allowed api_key (some u)
    → u.id ≢ user
revoked-key_rows config request user acc reason u w loads known e =
    revoked-api_key key_rows config request user acc reason u
      ((revoke_api_keys-key_rows acc.db user reason [] none).0 ∙ w) loads known e
