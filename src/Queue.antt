-- ===== src/Queue.antt =====
-- src/queue.c and include/queue.h: the bounded queue of sequence-numbered slots.
-- Each call is a small machine that makes one access to shared memory per step, so that the same
-- definition serves a call that runs alone and calls that interleave.
pub mod Slots
pub mod Fifo
pub mod Alone
pub mod Single
pub mod Threads
mod Tests
use ferretptimize.Common.{
  ℕ, zero, suc, ◌+◌, ◌-◌, ◌%◌, ◌^◌, Bool, true, false, ◌&&◌, not, Option, none, some, List, [], ◌∷◌,
  ◌==◌, if◌then◌else◌, get_or, set, arith,
}
use ferretptimize.Common.Int.{ℤ, pos, ◌-ℤ◌, ltb_ℤ, signed64}

-- `fp_queue_slot`; `data` is the pointer as a number, 0 for NULL.
pub record Slot : Type 0 where
  pub seq : ℕ
  pub value : ℕ

-- `fp_queue`.
pub record Queue : Type 0 where
  pub capacity : ℕ
  pub slots : List Slot
  pub head : ℕ
  pub tail : ℕ

abbrev pub absent : Slot
absent = record { seq = 0; value = 0 }

-- `size_t` addition.
abbrev pub add_size : ℕ → ℕ → ℕ
add_size a b = (a + b) % 2 ^ 64

-- The loop of `atomic_init` over the slots, from index `i` on.
pub fresh_slots : ℕ → ℕ → List Slot
fresh_slots zero i = []
fresh_slots (suc n) i = record { seq = i; value = 0 } ∷ fresh_slots n (i + 1)

-- `fp_queue_create`; the two Booleans say whether the two allocations succeed.
pub create : Bool → Bool → ℕ → Option Queue
create queue_ok slots_ok capacity =
    let size = if capacity == 0 then 1 else capacity in
    if queue_ok && slots_ok
    then some (record { capacity = size; slots = fresh_slots size 0; head = 0; tail = 0 })
    else none

-- `&queue->slots[pos % queue->capacity]`.
abbrev pub slot_at : Queue → ℕ → Slot
slot_at q p = get_or q.slots (p % q.capacity) absent

abbrev pub set_slot : Queue → ℕ → Slot → Queue
set_slot q p s = record q { slots = set q.slots (p % q.capacity) s }

-- `(intptr_t)seq - (intptr_t)expected`.
abbrev pub diff : ℕ → ℕ → ℤ
diff seq expected = signed64 seq -ℤ signed64 expected

abbrev pub is_zero : ℤ → Bool
is_zero (pos n) = n == 0
is_zero _ = false

-- Where a call stands, with its live locals.
pub data Pc : Type 0 where
  push_load : (item : ℕ) → Pc  -- before the load of `tail`
  push_seq : (item at : ℕ) → Pc  -- before the load of the slot's `seq`
  push_cas : (item at : ℕ) → Pc  -- before the compare-exchange of `tail`
  push_write : (item at : ℕ) → Pc  -- before `slot->data = data`
  push_publish : (item at : ℕ) → Pc  -- before the store of `seq`
  pushed : Pc  -- returned 0
  push_full : Pc  -- returned -1 with EAGAIN
  pop_load : Pc
  pop_seq : (at : ℕ) → Pc
  pop_cas : (at : ℕ) → Pc
  pop_read : (at : ℕ) → Pc
  pop_release : (item at : ℕ) → Pc
  popped : (item : ℕ) → Pc  -- returned the pointer
  pop_empty : Pc  -- returned NULL with EAGAIN

-- What the body of the loop of `fp_queue_push` does after the load of `seq`.
pub push_branch : ℕ → ℕ → ℤ → Pc
push_branch item at d =
    if is_zero d then push_cas item at else if ltb_ℤ d (pos 0) then push_full else push_load item

pub pop_branch : ℕ → ℤ → Pc
pop_branch at d = if is_zero d then pop_cas at else if ltb_ℤ d (pos 0) then pop_empty else pop_load

-- One step of `fp_queue_push` or `fp_queue_pop`. The flag makes a weak compare-exchange fail
-- although the values agree; a failure loads the current value into `pos`.
pub step : Bool → Queue → Pc → Queue × Pc
step spurious q (push_load item) = (q, push_seq item q.tail)
step spurious q (push_seq item at) = (q, push_branch item at (diff (slot_at q at).seq at))
step spurious q (push_cas item at) =
    if q.tail == at && not spurious
    then (record q { tail = add_size at 1 }, push_write item at)
    else (q, push_seq item q.tail)
step spurious q (push_write item at) =
    (set_slot q at (record { seq = (slot_at q at).seq; value = item }), push_publish item at)
step spurious q (push_publish item at) =
    (set_slot q at (record { seq = add_size at 1; value = (slot_at q at).value }), pushed)
step spurious q pushed = (q, pushed)
step spurious q push_full = (q, push_full)
step spurious q pop_load = (q, pop_seq q.head)
step spurious q (pop_seq at) = (q, pop_branch at (diff (slot_at q at).seq (add_size at 1)))
step spurious q (pop_cas at) =
    if q.head == at && not spurious
    then (record q { head = add_size at 1 }, pop_read at)
    else (q, pop_seq q.head)
step spurious q (pop_read at) = (q, pop_release (slot_at q at).value at)
step spurious q (pop_release item at) = (
  set_slot q at (record { seq = add_size at q.capacity; value = (slot_at q at).value }),
  popped item,
)
step spurious q (popped item) = (q, popped item)
step spurious q pop_empty = (q, pop_empty)

-- A call that runs alone, `n` steps of it, with no spurious failure.
pub run_call : ℕ → Queue → Pc → Queue × Pc
run_call zero q c = (q, c)
run_call (suc n) q c = let (q', c') = step false q c in run_call n q' c'

-- The steps that a call needs when nothing interferes.
abbrev pub call_steps : ℕ
call_steps = 5

pub data Status : Type 0 where
  done einval eagain : Status

-- The status and the pointer that a finished call returns; a call that is not finished has none.
abbrev pub outcome : Pc → Option (Status × ℕ)
outcome pushed = some (done, 0)
outcome push_full = some (eagain, 0)
outcome (popped item) = some (done, item)
outcome pop_empty = some (eagain, 0)
outcome _ = none

-- `fp_queue_push` and `fp_queue_pop` as a single thread sees them, the NULL queue included.
pub push : Option Queue → ℕ → Option Queue × Option (Status × ℕ)
push none item = (none, some (einval, 0))
push (some q) item = let (q', c) = run_call call_steps q (push_load item) in (some q', outcome c)

pub pop : Option Queue → Option Queue × Option (Status × ℕ)
pop none = (none, some (einval, 0))
pop (some q) = let (q', c) = run_call call_steps q pop_load in (some q', outcome c)
