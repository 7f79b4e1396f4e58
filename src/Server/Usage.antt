-- ===== src/Server/Usage.antt =====
-- The daily quota of expert requests: `g_expert_usage` and `fp_track_expert_usage` of src/server.c.
pub mod Quota
mod Tests
use ferretptimize.Common.{
  ℕ, ◌+◌, ◌*◌, ◌%◌, ◌^◌, Bool, true, false, ◌&&◌, ◌||◌, not, List, [], ◌∷◌, ltb, ◌==◌,
  if◌then◌else◌, replicate,
}

-- `fp_expert_usage_entry`.
pub record Entry : Type 0 where
  pub user_id : ℕ
  pub day : ℕ
  pub jobs : ℕ
  pub bytes : ℕ

abbrev pub max_daily_jobs : ℕ
max_daily_jobs = 500

abbrev pub max_daily_bytes : ℕ
max_daily_bytes = 2 * 1024 * 1024 * 1024

-- The table has 64 entries, all zero at the start.
abbrev pub table_size : ℕ
table_size = 64

abbrev pub unused : Entry
unused = record { user_id = 0; day = 0; jobs = 0; bytes = 0 }

abbrev pub initial : List Entry
initial = replicate table_size unused

pub data Verdict : Type 0 where
  allowed server_busy job_limit byte_limit : Verdict

-- `uint64_t` addition.
abbrev pub add64 : ℕ → ℕ → ℕ
add64 a b = (a + b) % 2 ^ 64

-- The tests on the entry that the search stopped at.
pub charge : Entry → ℕ → ℕ → Verdict × Entry
charge e files total =
    if ltb max_daily_jobs (add64 e.jobs files)
    then (job_limit, e)
    else if ltb max_daily_bytes (add64 e.bytes total)
    then (byte_limit, e)
    else (allowed, record e { jobs = add64 e.jobs files; bytes = add64 e.bytes total })

-- The search for a slot, and the charge: the caller's entry of today, or the first that is unused
-- or of another day.
unfoldable pub charge_slot : List Entry → ℕ → ℕ → ℕ → ℕ → Verdict × List Entry
charge_slot [] user today files total = (server_busy, [])
charge_slot (e ∷ es) user today files total =
    let (v, e') = charge e files total in
    let (w, e'') =
      charge (record { user_id = user; day = today; jobs = 0; bytes = 0 }) files total in
    let (u, es') = charge_slot es user today files total in
    if e.user_id == user && e.day == today
    then (v, e' ∷ es)
    else if e.user_id == 0 || not (e.day == today)
    then (w, e'' ∷ es)
    else (u, e ∷ es')

-- `fp_track_expert_usage`, with the day of the call.
unfoldable pub track : List Entry → ℕ → ℕ → ℕ → ℕ → Verdict × List Entry
track table user today files total =
    if user == 0 then (allowed, table) else charge_slot table user today files total
