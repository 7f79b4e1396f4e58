-- ===== src/Auth/Keys/Tests.antt =====
-- The rows of a small table of keys, and the theorems on it.
use ferretptimize.Common.{◌≡◌, refl, true, none, some, [], ◌∷◌}
use ferretptimize.Common.Bytes.{Bytes, codes, str_eq, case_eq}
use ferretptimize.Common.Int.{pos}
use ferretptimize.Base64.{url_encode, encode_body, symbol, to_url, strip}
use ferretptimize.Auth.Sha256.{sha256_hex}
use ferretptimize.Auth.Keys.{
  KeyRow, scope_or_expert, generate_api_key, status_allows_entitlement, has_active_subscription,
}
use ferretptimize.Auth.Keys.Rows.{ApiKeys, active, has_hash, insert_key, insert_checked}
use ferretptimize.Auth.Keys.Stored.{key_rows}

abbrev empty : ApiKeys
empty = record { rows = []; is_unique = tt; prepares = true; steps = true; audits = [] }

abbrev raw : Bytes
raw = codes "0123456789abcdefghijklmn"

abbrev key : Bytes
key = codes "MDEyMzQ1Njc4OWFiY2RlZmdoaWprbG1u"

abbrev row : KeyRow
row = record { user_id = 7; key_hash = sha256_hex key; scope = codes "expert"; label = [] }

abbrev one_row : ApiKeys
unfolding has_hash
one_row = record empty { rows = record { key = row; status = active } ∷ []; is_unique = (refl, tt) }

makes : generate_api_key key_rows empty (some raw) 7 none none 64 ≡ some (one_row, key)
unfolding generate_api_key scope_or_expert url_encode encode_body symbol to_url strip insert_key
    insert_checked has_hash
makes = refl

past_due_until :
    has_active_subscription
      (some (record { status = codes "Past_Due"; current_period_end = pos 100 }))
      (pos 100)
    ≡ true
unfolding has_active_subscription status_allows_entitlement case_eq str_eq
past_due_until = refl
