-- ===== src/Auth/Keys.antt =====
-- API keys and entitlements of src/auth.c. The table of keys is an interface: its operations
-- are the SQL statements of the code, and its laws what SQLite promises of them.
pub mod Allowed
pub mod Rows
pub mod Stored
mod Tests
use ferretptimize.Common.{
  ℕ, zero, suc, ◌+◌, ◌-◌, ◌<◌, ◌≡◌, ◌≢◌, Bool, true, false, not, ◌&&◌, ◌||◌, Option, none, some,
  List, [], ◌∷◌, ◌++◌, ltb, leb, ◌==◌, if◌then◌else◌, length, take,
}
use ferretptimize.Common.Int.{ℤ, pos, ltb_ℤ}
use ferretptimize.Common.Bytes.{Bytes, codes, case_eq, or_empty}
use ferretptimize.Base64.{url_encode}
use ferretptimize.Auth.Sha256.{sha256_hex}
use ferretptimize.Auth.Scope.{scope_allows}
use ferretptimize.Auth.Token.{User}

-- What the code writes into `api_keys`; the status of a new row is active.
pub record KeyRow : Type 0 where
  pub user_id : ℕ
  pub key_hash : Bytes
  pub scope : Bytes
  pub label : Bytes

-- What is left of a found key once its user's keys are revoked.
unfoldable pub unless_owned : ℕ → Option (ℕ × Bytes) → Option (ℕ × Bytes)
unless_owned user none = none
unless_owned user (some (owner, scope)) = if owner == user then none else some (owner, scope)

-- How the UPDATE ends: it cannot be prepared, its step fails, or it is done.
pub data Updated (Db : Type 0) : Type 0 where
  unprepared : Updated Db
  step_failed : Updated Db
  updated : Db → Updated Db

-- The statements `INSERT INTO api_keys`, `SELECT user_id, scope FROM api_keys WHERE key_hash = ? AND
-- status = 'active'` and `UPDATE api_keys SET status = 'revoked' WHERE user_id = ? AND status =
-- 'active'`, and `fp_auth_record_audit`, which writes to another table. Auth/Keys/Rows has the rows
-- and these statements on them.
pub record KeyTable (Db : Type 0) : Type 0 where
  pub insert : Db → KeyRow → Option Db
  pub find_active : Db → Bytes → Option (ℕ × Bytes)
  pub revoke : Db → ℕ → Updated Db
  pub audit : Db → ℕ → Bytes → Bytes → Db
  pub find-insert :
      (db db' : Db) (row : KeyRow)
      → insert db row ≡ some db'
      → find_active db' row.key_hash ≡ some (row.user_id, row.scope)
  pub find-insert_ne :
      (db db' : Db) (row : KeyRow) (hash : Bytes)
      → insert db row ≡ some db'
      → row.key_hash ≢ hash
      → find_active db' hash ≡ find_active db hash
  pub find-revoke :
      (db db' : Db) (user : ℕ) (hash : Bytes)
      → revoke db user ≡ updated db'
      → find_active db' hash ≡ unless_owned user (find_active db hash)
  pub find-audit :
      (db : Db) (user : ℕ) (event metadata hash : Bytes)
      → find_active (audit db user event metadata) hash ≡ find_active db hash

unfoldable pub with_reason : Option Bytes → Bytes
with_reason (some (c ∷ s)) = codes "{\"reason\":\"" ++ (take 200 (c ∷ s) ++ codes "\"}")
with_reason _ = codes "{}"

-- `scope && *scope ? scope : "expert"`.
unfoldable pub scope_or_expert : Option Bytes → Bytes
scope_or_expert (some (c ∷ s)) = c ∷ s
scope_or_expert _ = codes "expert"

module _ {Db : Type 0} (table : KeyTable Db) where
  -- `fp_auth_generate_api_key`, with the 24 random bytes it reads, if it can: the table and
  -- `out_token`.
  unfoldable pub generate_api_key :
      Db → Option Bytes → ℕ → Option Bytes → Option Bytes → ℕ → Option (Db × Bytes)
  generate_api_key db none user_id scope label out_len = none
  generate_api_key db (some raw) user_id scope label zero = none
  generate_api_key db (some raw) user_id scope label (suc room) =
      let token = or_empty (url_encode true raw) in
      let row : KeyRow = record {
        user_id = user_id;
        key_hash = sha256_hex token;
        scope = scope_or_expert scope;
        label = or_empty label;
      } in
      elim (table.insert db row) [ none ↦ none | some db' ↦ some (db', take room token) ]

  -- `fp_auth_api_key_allowed`: the user of the key, and none for 0.
  unfoldable pub api_key_allowed : Db → Bytes → Option Bytes → Option ℕ
  api_key_allowed db [] required_scope = none
  api_key_allowed db (c ∷ token) required_scope =
      elim (table.find_active db (sha256_hex (c ∷ token))) [
        | none ↦ none
        | some (user_id, scope) ↦
            if scope_allows (some scope) required_scope then some user_id else none
      ]

  -- `fp_auth_revoke_api_keys`: the table, and whether it returns 0. The audit is written
  -- whether or not the step fails, but not when the statement cannot be prepared.
  unfoldable pub revoke_api_keys : Db → ℕ → Option Bytes → Db × Bool
  revoke_api_keys db user_id reason =
      let event = codes "api_keys_revoked" in
      elim (table.revoke db user_id) as (λ r. Db × Bool) [
        | unprepared ↦ (db, false)
        | step_failed ↦ (table.audit db user_id event (with_reason reason), false)
        | updated db' ↦ (table.audit db' user_id event (with_reason reason), true)
      ]

-- `fp_status_allows_entitlement`.
unfoldable pub status_allows_entitlement : Option Bytes → ℤ → ℤ → Bool
status_allows_entitlement none period_end now = false
status_allows_entitlement (some []) period_end now = false
status_allows_entitlement (some (c ∷ s)) period_end now =
    let status = c ∷ s in
    if not (case_eq status (codes "active"))
      && (not (case_eq status (codes "trialing")) && not (case_eq status (codes "past_due")))
    then false
    else if ltb_ℤ (pos 0) period_end && ltb_ℤ period_end now
    then false
    else true

-- `fp_auth_subscription`, what the code reads of it.
pub record Subscription : Type 0 where
  pub status : Bytes
  pub current_period_end : ℤ

-- `fp_auth_has_active_subscription`, from what `fp_auth_get_subscription` finds.
unfoldable pub has_active_subscription : Option Subscription → ℤ → Bool
has_active_subscription none now = false
has_active_subscription (some sub) now =
    status_allows_entitlement (some sub.status) sub.current_period_end now
