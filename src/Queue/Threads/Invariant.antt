-- ===== src/Queue/Threads/Invariant.antt =====
-- What holds of the threads of src/queue.c between any two steps.
use ferretptimize.Common.{
  ℕ, ◌+◌, ◌-◌, ◌%◌, ◌≤◌, ◌<◌, ◌≡◌, ◌≢◌, ◌∙◌, ◌⊎◌, inl, inr, refl, sym, ap, Option, none, some, List,
  length, get_elem?, arith, get_or-set_self, get_or-set_ne,
}
use ferretptimize.Queue.{
  Slot, Queue, absent, slot_at, set_slot, Pc, push_seq, push_cas, push_write, push_publish, pop_seq,
  pop_cas, pop_read, pop_release, popped,
}
use ferretptimize.Queue.Slots.{mod-ne, mod-add_self}
use ferretptimize.Queue.Threads.{System}
use native.Mathlib.Decide.{ℕ_discrete}

-- The ticket that a thread has drawn and not yet published, or not yet released.
abbrev pub writes : Pc → Option ℕ
writes (push_write item at) = some at
writes (push_publish item at) = some at
writes _ = none

abbrev pub reads : Pc → Option ℕ
reads (pop_read at) = some at
reads (pop_release item at) = some at
reads _ = none

-- A drawn ticket of a push: its slot waits for it, and the FIFO has its pointer.
pub record IsWriting (q : Queue) (items : List ℕ) (item at : ℕ) : Type 0 where
  pub drawn : at < q.tail
  pub waiting : q.head ≤ at
  pub seq : (slot_at q at).seq ≡ at
  pub entered : get_elem? items (at - q.head) ≡ some item

-- What the locals of a thread say of the queue, the FIFO and its promise.
abbrev pub Ok : Queue → List ℕ → Option ℕ → Pc → Type 0
Ok q items promised (push_seq item at) = at ≤ q.tail
Ok q items promised (push_cas item at) = (at ≤ q.tail) × (at ≡ q.tail → (slot_at q at).seq ≡ at)
Ok q items promised (push_write item at) = IsWriting q items item at
Ok q items promised (push_publish item at) =
    IsWriting q items item at × ((slot_at q at).value ≡ item)
Ok q items promised (pop_seq at) = at ≤ q.head
Ok q items promised (pop_cas at) = (at ≤ q.head) × (at ≡ q.head → (slot_at q at).seq ≡ at + 1)
Ok q items promised (pop_read at) =
    (at < q.head) × ((slot_at q at).seq ≡ at + 1) × (promised ≡ some (slot_at q at).value)
Ok q items promised (pop_release item at) =
    (at < q.head) × ((slot_at q at).seq ≡ at + 1) × (promised ≡ some item)
Ok q items promised (popped item) = promised ≡ some item
Ok q items promised _ = Unit {0}

-- The queue and the FIFO.
pub record Shared (q : Queue) (items : List ℕ) : Type 0 where
  pub room : 2 ≤ q.capacity
  pub size : length q.slots ≡ q.capacity
  pub count : q.head + length items ≡ q.tail
  pub within : q.tail ≤ q.head + q.capacity
  pub below : (p : ℕ) → (slot_at q p).seq ≤ q.tail + q.capacity
  pub free : (p : ℕ) → (slot_at q p).seq ≡ p → p < q.head + q.capacity
  pub full :
      (p : ℕ)
      → (slot_at q p).seq ≡ p + 1
      → (p < q.tail) × (q.head ≤ p → get_elem? items (p - q.head) ≡ some (slot_at q p).value)

pub record Inv (s : System) : Type 0 where
  pub shared : Shared s.queue s.items
  pub threads : (i : ℕ) → Ok s.queue s.items (s.promised i) (s.pc i)
  pub one_writer : (i j t : ℕ) → writes (s.pc i) ≡ some t → writes (s.pc j) ≡ some t → i ≡ j
  pub one_reader : (i j t : ℕ) → reads (s.pc i) ≡ some t → reads (s.pc j) ≡ some t → i ≡ j

-- Where a slot is written, a position is in that slot or elsewhere.
pub slot-cases :
    (q : Queue) (at p : ℕ) (v : Slot)
    → 2 ≤ q.capacity
    → length q.slots ≡ q.capacity
    → ((p % q.capacity ≡ at % q.capacity)
        × (slot_at (set_slot q at v) p ≡ v)
        × (slot_at q p ≡ slot_at q at))
      ⊎ (slot_at (set_slot q at v) p ≡ slot_at q p)
slot-cases q at p v h size = elim (ℕ_discrete (p % q.capacity) (at % q.capacity)) [
  | yes same ↦ inl (
    same,
    rw same (get_or-set_self q.slots (at % q.capacity) v absent (omega arith)),
    rw same refl,
  )
  | no apart ↦ inr (get_or-set_ne q.slots v absent (λ e. apart (sym e)))
]

-- The next position is in another slot, and the one before the next round as well.
pub next-apart : (p c : ℕ) → 2 ≤ c → (p + 1) % c ≢ p % c
next-apart p c h = mod-ne p (p + 1) c (omega arith) (omega arith)

pub round-apart : (p at c : ℕ) → 2 ≤ c → p % c ≡ at % c → p + 1 ≢ at + c
round-apart p at c h same e =
    next-apart p c h (ap (λ (n : ℕ). n % c) e ∙ mod-add_self at c ∙ sym same)
