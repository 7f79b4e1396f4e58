-- ===== src/Progress.antt =====
-- src/progress.c: progress channels and their registry. A channel is a block of the heap; its address
-- is its place in the heap, and a freed block stays there as none. A call that touches a freed
-- channel gives none. The payload of an event is a list of bytes. Mutexes and the condition variable
-- are left out: each function here is what one call does when no other call runs meanwhile, but for
-- `fp_progress_acquire`, whose two locked parts are two steps.
pub mod Events
pub mod Probing
pub mod Lifetime
pub mod Race
mod Tests
use ferretptimize.Common.{
  ℕ, zero, suc, ◌+◌, ◌-◌, ◌%◌, Bool, true, false, not, ◌&&◌, ◌||◌, List, [], ◌∷◌, ◌++◌, Option,
  none, some, ◌>>=◌, ◌==◌, if◌then◌else◌, length, take, get_elem?, set, replicate,
}
use ferretptimize.Common.Int.{ℤ, pos, ◌+ℤ◌, ◌-ℤ◌, leb_ℤ}
use ferretptimize.Common.Bytes.{Bytes, codes}

-- `fp_progress_event_type`.
pub data EventType : Type 0 where
  output_event status_event : EventType

-- `fp_progress_event`.
pub record Event : Type 0 where
  pub type : EventType
  pub event_name : Bytes
  pub payload : Bytes

abbrev default_name : EventType → Bytes
default_name output_event = codes "result"
default_name status_event = codes "status"

-- `fp_progress_event_create` once its allocation succeeds; `event_name` has room for 15 bytes.
pub event_create : EventType → Bytes → Bytes → Event
event_create type [] payload = record {
  type = type;
  event_name = default_name type;
  payload = payload;
}
event_create type (c ∷ cs) payload = record {
  type = type;
  event_name = take 15 (c ∷ cs);
  payload = payload;
}

-- `struct fp_progress_channel`; the list from `head` to `tail`.
pub record Channel : Type 0 where
  pub job_id : ℕ
  pub events : List Event
  pub ref_count : ℤ
  pub closed : Bool

-- `fp_progress_channel_push`.
unfoldable pub channel_push : Channel → Event → Channel
channel_push c e = if c.closed then c else record c { events = c.events ++ (e ∷ []) }

-- `fp_progress_close`.
unfoldable pub close : Channel → Channel
close c = record c { closed = true }

abbrev pub is_nil : List Event → Bool
is_nil [] = true
is_nil (e ∷ es) = false

-- `fp_progress_next_event`: none when it waits; otherwise the event, none for NULL, `*is_open` and
-- the channel after.
unfoldable pub next_event : Channel → Option (Option Event × Bool × Channel)
next_event c = elim c.events [
  | [] ↦ if c.closed then some (none, false, c) else none
  | e ∷ es ↦ some (some e, not c.closed || not (is_nil es), record c { events = es })
]

-- The heap of channels, and the entries of `struct fp_progress_registry`: a job's id beside the
-- address of its channel.
pub record Registry : Type 0 where
  pub heap : List (Option Channel)
  pub entries : List (Option (ℕ × ℕ))

-- `fp_progress_registry_create`.
unfoldable pub registry_create : ℕ → Registry
registry_create capacity = record {
  heap = [];
  entries = replicate (if capacity == 0 then 64 else capacity) none;
}

-- What `free` leaves, and what a dereference finds.
abbrev pub lookup : List (Option Channel) → ℕ → Option Channel
lookup [] address = none
lookup (block ∷ heap) zero = block
lookup (block ∷ heap) (suc address) = lookup heap address

-- `fp_progress_registry_index`.
abbrev pub registry_index : ℕ → ℕ → ℕ
registry_index capacity job_id = if capacity == 0 then 0 else job_id % capacity

-- The first of `n` indices from the `i`th probe on whose entry is free.
unfoldable pub free_probe : List (Option (ℕ × ℕ)) → (capacity start i n : ℕ) → Option ℕ
free_probe entries capacity start i zero = none
free_probe entries capacity start i (suc n) =
    let rest = free_probe entries capacity start (i + 1) n in
    let idx = (start + i) % capacity in
    elim (get_elem? entries idx) [
      | none ↦ none
      | some entry ↦ elim entry [ none ↦ some idx | some held ↦ rest ]
    ]

-- `fp_progress_register`: the address of the new channel, none for NULL. The Boolean says whether
-- `calloc` succeeds.
unfoldable pub register : Bool → Registry → ℕ → Option ℕ × Registry
register memory_ok r job_id =
    let capacity = length r.entries in
    let address = length r.heap in
    let fresh : Channel = record {
      job_id = job_id;
      events = [];
      ref_count = pos 1;
      closed = false;
    } in
    if job_id == 0
    then (none, r)
    else elim (free_probe r.entries capacity (registry_index capacity job_id) 0 capacity) [
      | none ↦ (none, r)
      | some idx ↦
          if memory_ok
          then (
            some address,
            record {
              heap = r.heap ++ (some fresh ∷ []);
              entries = set r.entries idx (some (job_id, address));
            },
          )
          else (none, r)
    ]

-- The probes of `fp_progress_registry_find`.
unfoldable pub find_probe : List (Option (ℕ × ℕ)) → (capacity start job_id i n : ℕ) → Option ℕ
find_probe entries capacity start job_id i zero = none
find_probe entries capacity start job_id i (suc n) =
    let rest = find_probe entries capacity start job_id (i + 1) n in
    let idx = (start + i) % capacity in
    elim (get_elem? entries idx) [
      | none ↦ none
      | some entry ↦ elim entry [
        | none ↦ rest
        | some held ↦ if held.0 == job_id then some held.1 else rest
      ]
    ]

-- `fp_progress_registry_find`.
unfoldable pub find : Registry → ℕ → Option ℕ
find r job_id =
    let capacity = length r.entries in
    if job_id == 0
    then none
    else find_probe r.entries capacity (registry_index capacity job_id) job_id 0 capacity

-- `fp_progress_retain`, and the second half of `fp_progress_acquire`.
unfoldable pub retain : Registry → ℕ → Option Registry
retain r address = lookup r.heap address >>= λ c.
    some (record r {
      heap = set r.heap address (some (record c { ref_count = c.ref_count +ℤ pos 1 }));
    })

-- Where a call of `fp_progress_acquire` stands: before its lookup, between the lookup, under the
-- registry's lock, and the count, under the channel's, or after it, with what it returns.
pub data Acquire : Type 0 where
  looking : ℕ → Acquire
  counting : ℕ → Acquire
  acquired : Option ℕ → Acquire

-- One locked step of `fp_progress_acquire`. Calls of other threads may run between two steps.
unfoldable pub acquire_step : Registry → Acquire → Option (Registry × Acquire)
acquire_step r (looking job_id) = elim (find r job_id) [
  | none ↦ some (r, acquired none)
  | some address ↦ some (r, counting address)
]
acquire_step r (counting address) = retain r address >>= λ r'. some (r', acquired (some address))
acquire_step r (acquired result) = some (r, acquired result)

-- The loop of `fp_progress_registry_forget`.
unfoldable pub forget : List (Option (ℕ × ℕ)) → ℕ → List (Option (ℕ × ℕ))
forget [] job_id = []
forget (none ∷ entries) job_id = none ∷ forget entries job_id
forget (some held ∷ entries) job_id =
    if held.0 == job_id then none ∷ entries else some held ∷ forget entries job_id

-- `fp_progress_release`.
unfoldable pub release : Registry → ℕ → Option Registry
release r address = lookup r.heap address >>= λ c.
    let left = c.ref_count -ℤ pos 1 in
    if leb_ℤ left (pos 0) && leb_ℤ (pos 0) left
    then some (record { heap = set r.heap address none; entries = forget r.entries c.job_id })
    else some (record r { heap = set r.heap address (some (record c { ref_count = left })) })

-- A call of `channel_push` or `close` through the address.
unfoldable pub update : Registry → ℕ → (Channel → Channel) → Option Registry
update r address f =
    lookup r.heap address >>= λ c. some (record r { heap = set r.heap address (some (f c)) })
