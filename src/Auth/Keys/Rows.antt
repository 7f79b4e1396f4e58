-- ===== src/Auth/Keys/Rows.antt =====
-- The table `api_keys` of src/auth.c as its rows, and the statements that the code runs on it.
use ferretptimize.Common.{
  ℕ, ◌≡◌, ◌∙◌, refl, sym, ap, Bool, true, false, not, ◌&&◌, ◌||◌, Option, none, some, List, [], ◌∷◌,
  ◌==◌, if◌then◌else◌, arith, Bool-cases, inl, inr,
}
use ferretptimize.Common.Bytes.{Bytes, codes, str_eq, eq_of_str_eq}
use ferretptimize.Auth.Keys.{KeyRow, Updated, unprepared, step_failed, updated, unless_owned}

-- A row, with the column `status`.
pub record ApiKey : Type 0 where
  pub key : KeyRow
  pub status : Bytes

abbrev pub active : Bytes
active = codes "active"

-- `WHERE key_hash = ?`, on any row.
unfoldable pub has_hash : List ApiKey → Bytes → Bool
has_hash [] hash = false
has_hash (r ∷ rows) hash = str_eq r.key.key_hash hash || has_hash rows hash

-- `UNIQUE(key_hash)`.
abbrev pub IsUnique : List ApiKey → Type 0
IsUnique [] = Unit
IsUnique (r ∷ rows) = (has_hash rows r.key.key_hash ≡ false) × IsUnique rows

-- `SELECT user_id, scope FROM api_keys WHERE key_hash = ? AND status = 'active' LIMIT 1`.
unfoldable pub find_row : List ApiKey → Bytes → Option (ℕ × Bytes)
find_row [] hash = none
find_row (r ∷ rows) hash =
    let rest = find_row rows hash in
    if str_eq r.key.key_hash hash && str_eq r.status active
    then some (r.key.user_id, r.key.scope)
    else rest

-- `UPDATE api_keys SET status = 'revoked' WHERE user_id = ? AND status = 'active'`.
unfoldable pub revoke_row : ℕ → ApiKey → ApiKey
revoke_row user r =
    if r.key.user_id == user && str_eq r.status active
    then record r { status = codes "revoked" }
    else r

abbrev pub revoke_rows : ℕ → List ApiKey → List ApiKey
revoke_rows user [] = []
revoke_rows user (r ∷ rows) = revoke_row user r ∷ revoke_rows user rows

revoke_row-key : (user : ℕ) (r : ApiKey) → (revoke_row user r).key ≡ r.key
unfolding revoke_row
revoke_row-key user r = elim (Bool-cases (r.key.user_id == user && str_eq r.status active)) [
  | inl e ↦ rw e refl
  | inr e ↦ rw e refl
]

has_hash-revoke_rows :
    (user : ℕ) (rows : List ApiKey) (hash : Bytes)
    → has_hash (revoke_rows user rows) hash ≡ has_hash rows hash
unfolding has_hash
has_hash-revoke_rows user [] hash = refl
has_hash-revoke_rows user (r ∷ rows) hash =
    rw (revoke_row-key user r, has_hash-revoke_rows user rows hash) refl

pub revoke_rows-IsUnique :
    (user : ℕ) (rows : List ApiKey) → IsUnique rows → IsUnique (revoke_rows user rows)
revoke_rows-IsUnique user [] u = tt
revoke_rows-IsUnique user (r ∷ rows) u = (
  rw (revoke_row-key user r) (has_hash-revoke_rows user rows r.key.key_hash ∙ u.0),
  revoke_rows-IsUnique user rows u.1,
)

find_row-missing :
    (rows : List ApiKey) (hash : Bytes) → has_hash rows hash ≡ false → find_row rows hash ≡ none
unfolding has_hash find_row
find_row-missing [] hash e = refl
find_row-missing (r ∷ rows) hash e = elim (Bool-cases (str_eq r.key.key_hash hash)) [
  | inl same ↦ absurd (ground (arith, e, same))
  | inr other ↦
      let rest = find_row-missing rows hash (ground (arith, e, other)) in rw (other, rest) refl
]

revoke_row-status :
    (user : ℕ) (r : ApiKey)
    → str_eq (revoke_row user r).status active
      ≡ (not (r.key.user_id == user) && str_eq r.status active)
unfolding revoke_row str_eq
revoke_row-status user r = elim (Bool-cases (str_eq r.status active)) [
  | inl e ↦ elim (Bool-cases (r.key.user_id == user)) [
    | inl own ↦ rw (e, own) refl
    | inr other ↦ rw (e, other) e
  ]
  | inr e ↦ elim (Bool-cases (r.key.user_id == user)) [
    | inl own ↦ rw (e, own) e
    | inr other ↦ rw (e, other) e
  ]
]

-- The first row that matches, with the other rows' answer for when it does not.
found_of : Bool → Bool → ℕ → Bytes → Option (ℕ × Bytes) → Option (ℕ × Bytes)
found_of same is_active owner scope rest = if same && is_active then some (owner, scope) else rest

found_of-revoked :
    (same is_active : Bool) (user owner : ℕ) (scope : Bytes) (rest rest' : Option (ℕ × Bytes))
    → (same ≡ true → rest ≡ none)
    → rest' ≡ unless_owned user rest
    → found_of same (not (owner == user) && is_active) owner scope rest'
      ≡ unless_owned user (found_of same is_active owner scope rest)
unfolding found_of unless_owned
found_of-revoked false is_active user owner scope rest rest' h e = e
found_of-revoked true false user owner scope rest rest' h e = ground (arith, e)
found_of-revoked true true user owner scope rest rest' h e =
    let no_other = h refl in
    elim (Bool-cases (owner == user)) [
      | inl own ↦ rw own (rw e (rw no_other refl))
      | inr other ↦ rw other refl
    ]

-- What the UPDATE leaves for the SELECT to find.
pub find_row-revoke_rows :
    (user : ℕ) (rows : List ApiKey) (hash : Bytes)
    → IsUnique rows
    → find_row (revoke_rows user rows) hash ≡ unless_owned user (find_row rows hash)
unfolding find_row unless_owned found_of
find_row-revoke_rows user [] hash u = refl
find_row-revoke_rows user (r ∷ rows) hash u =
    rw (revoke_row-key user r, revoke_row-status user r)
      (found_of-revoked (str_eq r.key.key_hash hash) (str_eq r.status active) user r.key.user_id
        r.key.scope (find_row rows hash) (find_row (revoke_rows user rows) hash)
        (λ same.
          find_row-missing rows hash
            (ap (has_hash rows) (sym (eq_of_str_eq r.key.key_hash hash same)) ∙ u.0))
        (find_row-revoke_rows user rows hash u.1))

-- The table: its rows, the newest first, whether a statement can be prepared and whether its step is
-- done, and the rows of the table `audit`, the newest first.
pub record ApiKeys : Type 0 where
  pub rows : List ApiKey
  pub is_unique : IsUnique rows
  pub prepares : Bool
  pub steps : Bool
  pub audits : List (ℕ × Bytes × Bytes)

abbrev pub works : ApiKeys → Bool
works db = db.prepares && db.steps

-- `INSERT INTO api_keys (user_id, key_hash, scope, label, status, created_at) VALUES (?, ?, ?, ?,
-- 'active', ...)`, which fails on a hash that is taken.
unfoldable pub insert_checked :
    (db : ApiKeys) (row : KeyRow) (taken : Bool)
    → has_hash db.rows row.key_hash ≡ taken
    → Option ApiKeys
insert_checked db row true e = none
insert_checked db row false e = some (record db {
  rows = record { key = row; status = active } ∷ db.rows;
  is_unique = (e, db.is_unique);
})

unfoldable pub insert_key : ApiKeys → KeyRow → Option ApiKeys
insert_key db row =
    if works db then insert_checked db row (has_hash db.rows row.key_hash) refl else none

unfoldable pub find_key : ApiKeys → Bytes → Option (ℕ × Bytes)
find_key db hash = if works db then find_row db.rows hash else none

unfoldable pub revoke_keys : ApiKeys → ℕ → Updated ApiKeys
revoke_keys db user =
    if not db.prepares
    then unprepared
    else if not db.steps
    then step_failed
    else updated (record db {
      rows = revoke_rows user db.rows;
      is_unique = revoke_rows-IsUnique user db.rows db.is_unique;
    })

-- `fp_auth_record_audit`, whose failure nothing looks at.
unfoldable pub record_audit : ApiKeys → ℕ → Bytes → Bytes → ApiKeys
record_audit db user event metadata = record db {
  audits = if works db then (user, event, metadata) ∷ db.audits else db.audits;
}
