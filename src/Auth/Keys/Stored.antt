-- ===== src/Auth/Keys/Stored.antt =====
-- The statements on the rows of `api_keys` keep the laws of the key table, and what a revocation of
-- src/auth.c does to the keys in it.
use ferretptimize.Common.{
  ℕ, ◌≡◌, ◌≢◌, ◌∙◌, refl, sym, ap, Bool, true, false, not, Option, none, some, List, ◌∷◌,
  if◌then◌else◌, arith, Bool-cases, inl, inr,
}
use mathlib.Core.Option.{some_inj}
use ferretptimize.Common.Bytes.{Bytes, codes, str_eq, str_eq_refl, eq_of_str_eq}
use ferretptimize.Auth.Keys.{
  KeyRow, KeyTable, Updated, unprepared, step_failed, updated, unless_owned, with_reason,
  api_key_allowed, revoke_api_keys,
}
use ferretptimize.Auth.Keys.Allowed.{revoke_api_keys-allowed}
use ferretptimize.Auth.Keys.Rows.{
  ApiKey, ApiKeys, active, works, has_hash, find_row, find_row-revoke_rows, insert_checked,
  insert_key, find_key, revoke_keys, revoke_rows, revoke_rows-IsUnique, record_audit,
}

-- A new row, as the INSERT makes it.
abbrev fresh : KeyRow → ApiKey
fresh row = record { key = row; status = active }

find_row-fresh :
    (row : KeyRow) (rows : List ApiKey)
    → find_row (fresh row ∷ rows) row.key_hash ≡ some (row.user_id, row.scope)
unfolding find_row str_eq
find_row-fresh row rows = rw (str_eq_refl row.key_hash) refl

find_row-fresh_ne :
    (row : KeyRow) (rows : List ApiKey) (hash : Bytes)
    → row.key_hash ≢ hash
    → find_row (fresh row ∷ rows) hash ≡ find_row rows hash
unfolding find_row
find_row-fresh_ne row rows hash apart = elim (Bool-cases (str_eq row.key_hash hash)) [
  | inl same ↦ absurd (apart (eq_of_str_eq row.key_hash hash same))
  | inr other ↦ rw other refl
]

-- What an INSERT that is done gives.
abbrev Inserted : ApiKeys → KeyRow → ApiKeys → Type 0
Inserted db row db' = (works db ≡ true) × (works db' ≡ true) × (db'.rows ≡ fresh row ∷ db.rows)

insert_checked-Inserted :
    (db db' : ApiKeys) (row : KeyRow) (taken : Bool) (e : has_hash db.rows row.key_hash ≡ taken)
    → works db ≡ true
    → insert_checked db row taken e ≡ some db'
    → Inserted db row db'
unfolding insert_checked
insert_checked-Inserted db db' row true e w h = absurd (cc)
insert_checked-Inserted db db' row false e w h = rw (← some_inj.0 h) (w, w, refl)

insert_key-Inserted :
    (db db' : ApiKeys) (row : KeyRow) → insert_key db row ≡ some db' → Inserted db row db'
unfolding insert_key
insert_key-Inserted db db' row h = elim (Bool-cases (works db)) [
  | inl w ↦ insert_checked-Inserted db db' row (has_hash db.rows row.key_hash) refl w (
      sym (
        ap
          (λ (b : Bool).
            if b then insert_checked db row (has_hash db.rows row.key_hash) refl else none)
          w)
      ∙ h)
  | inr broken ↦ absurd (ground (arith, broken, h))
]

pub find_key-insert_key :
    (db db' : ApiKeys) (row : KeyRow)
    → insert_key db row ≡ some db'
    → find_key db' row.key_hash ≡ some (row.user_id, row.scope)
unfolding find_key
find_key-insert_key db db' row h =
    let (w, w', rows) = insert_key-Inserted db db' row h in
    rw w' (rw rows (find_row-fresh row db.rows))

pub find_key-insert_key_ne :
    (db db' : ApiKeys) (row : KeyRow) (hash : Bytes)
    → insert_key db row ≡ some db'
    → row.key_hash ≢ hash
    → find_key db' hash ≡ find_key db hash
unfolding find_key
find_key-insert_key_ne db db' row hash h apart =
    let (w, w', rows) = insert_key-Inserted db db' row h in
    rw w (rw w' (rw rows (find_row-fresh_ne row db.rows hash apart)))

table_of : {Db : Type 0} → Db → Updated Db → Db
table_of before (updated db) = db
table_of before unprepared = before
table_of before step_failed = before

pub updated_inj : {Db : Type 0} (db db' : Db) → updated db ≡ updated db' → db ≡ db'
unfolding table_of
updated_inj db db' e = ap (table_of db) e

update_done :
    (prepares steps : Bool) (db db' : ApiKeys)
    → (if not prepares then unprepared else if not steps then step_failed else updated db)
      ≡ updated db'
    → (prepares ≡ true) × (steps ≡ true) × (db ≡ db')
update_done false steps db db' h = absurd (cc)
update_done true false db db' h = absurd (cc)
update_done true true db db' h = (refl, refl, updated_inj db db' h)

-- The table after an UPDATE that is done.
abbrev without : ApiKeys → ℕ → ApiKeys
without db user = record db {
  rows = revoke_rows user db.rows;
  is_unique = revoke_rows-IsUnique user db.rows db.is_unique;
}

without-found :
    (db : ApiKeys) (user : ℕ) (hash : Bytes)
    → find_key (without db user) hash ≡ unless_owned user (find_key db hash)
unfolding find_key unless_owned
without-found db user hash = elim (Bool-cases (works db)) [
  | inl w ↦ rw w (find_row-revoke_rows user db.rows hash db.is_unique)
  | inr broken ↦ rw broken refl
]

pub find_key-revoke_keys :
    (db db' : ApiKeys) (user : ℕ) (hash : Bytes)
    → revoke_keys db user ≡ updated db'
    → find_key db' hash ≡ unless_owned user (find_key db hash)
unfolding revoke_keys
find_key-revoke_keys db db' user hash h =
    let (prepared, stepped, same) = update_done db.prepares db.steps (without db user) db' h in
    ap (λ (d : ApiKeys). find_key d hash) (sym same) ∙ without-found db user hash

pub find_key-record_audit :
    (db : ApiKeys) (user : ℕ) (event metadata hash : Bytes)
    → find_key (record_audit db user event metadata) hash ≡ find_key db hash
unfolding find_key record_audit
find_key-record_audit db user event metadata hash = refl

-- The statements on the rows, as the table that the code works on.
abbrev pub key_rows : KeyTable ApiKeys
key_rows = record {
  insert = insert_key;
  find_active = find_key;
  revoke = revoke_keys;
  audit = record_audit;
  find-insert = find_key-insert_key;
  find-insert_ne = find_key-insert_key_ne;
  find-revoke = find_key-revoke_keys;
  find-audit = find_key-record_audit;
}

recorded :
    (db : ApiKeys) (user : ℕ) (reason : Option Bytes) (prepares steps : Bool)
    → db.prepares ≡ prepares
    → db.steps ≡ steps
    → let after = revoke_api_keys key_rows db user reason in
      (after.1 ≡ works db)
      × (after.0.audits ≡ (
          if works db
          then (user, codes "api_keys_revoked", with_reason reason) ∷ db.audits
          else db.audits))
unfolding revoke_api_keys revoke_keys record_audit
recorded db user reason false steps p s = rw p (refl, refl)
recorded db user reason true false p s = rw p (rw s (refl, refl))
recorded db user reason true true p s = rw p (rw s (refl, refl))

pub revoke_api_keys-key_rows :
    (db : ApiKeys) (user : ℕ) (reason : Option Bytes) (token : Bytes) (required : Option Bytes)
    → let after = revoke_api_keys key_rows db user reason in
      (after.1 ≡ works db)
      × (after.0.audits ≡ (
          if works db
          then (user, codes "api_keys_revoked", with_reason reason) ∷ db.audits
          else db.audits))
      × (works db ≡ true → api_key_allowed key_rows after.0 token required ≢ some user)
      × ((v : ℕ)
          → v ≢ user
          → api_key_allowed key_rows db token required ≡ some v
          → api_key_allowed key_rows after.0 token required ≡ some v)
      × (works db ≡ false
          → api_key_allowed key_rows after.0 token required
            ≡ api_key_allowed key_rows db token required)
revoke_api_keys-key_rows db user reason token required =
    let (result, audits) = recorded db user reason db.prepares db.steps refl refl in
    let (gone, others, same) = revoke_api_keys-allowed key_rows db user reason token required in
    (result, audits, (λ w. gone (result ∙ w)), others, (λ broken. same (result ∙ broken)))
