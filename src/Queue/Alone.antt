-- ===== src/Queue/Alone.antt =====
-- What a push or a pop that runs alone does to a valid queue, on every branch.
use ferretptimize.Common.{
  ℕ, ◌+◌, ◌%◌, ◌^◌, ◌≤◌, ◌<◌, ◌≡◌, ◌∙◌, sym, arith, length, length-set, get_or-set_self, set-set,
  get_or-set_ne, some,
}
use ferretptimize.Queue.{
  Slot, Queue, absent, slot_at, set_slot, push, pop, done, eagain, run_call, step, push_branch,
  pop_branch,
}
use ferretptimize.Queue.Slots.{IsValid, mod-ne, mod-add_self}
use native.Mathlib.Decide.{dec_lt}

abbrev pub after_push : Queue → ℕ → Queue
after_push q item = record (set_slot q q.tail (record { seq = q.tail + 1; value = item })) {
  tail = q.tail + 1;
}

abbrev pub after_pop : Queue → Queue
after_pop q =
    record (set_slot q q.head
      (record { seq = q.head + q.capacity; value = (slot_at q q.head).value })) {
        head = q.head + 1;
      }

pub slot_at-set_self :
    (q : Queue) (p : ℕ) (s : Slot)
    → 2 ≤ q.capacity
    → length q.slots ≡ q.capacity
    → slot_at (set_slot q p s) p ≡ s
slot_at-set_self q p s h e = get_or-set_self q.slots (p % q.capacity) s absent (omega arith)

pub push_room :
    (q : Queue) (item : ℕ)
    → IsValid q
    → q.tail < q.head + q.capacity
    → push (some q) item ≡ (some (after_push q item), some (done, 0))
unfolding push run_call step push_branch
push_room q item v h = ground (
  arith,
  v.free q.tail,
  slot_at-set_self q q.tail (record { seq = q.tail; value = item }),
  set-set q.slots (q.tail % q.capacity) (record { seq = q.tail; value = item })
      (record { seq = q.tail + 1; value = item }),
)

pub push_no_room :
    (q : Queue) (item : ℕ)
    → IsValid q
    → q.tail ≡ q.head + q.capacity
    → push (some q) item ≡ (some q, some (eagain, 0))
unfolding push run_call step push_branch
push_no_room q item v h = ground (arith, v.full q.head, mod-add_self q.head q.capacity)

pub pop-some :
    (q : Queue)
    → IsValid q
    → q.head < q.tail
    → pop (some q) ≡ (some (after_pop q), some (done, (slot_at q q.head).value))
unfolding pop run_call step pop_branch
pop-some q v h = ground (arith, v.full q.head)

pub pop-none : (q : Queue) → IsValid q → q.head ≡ q.tail → pop (some q) ≡ (some q, some (eagain, 0))
unfolding pop run_call step pop_branch
pop-none q v h = ground (arith, v.free q.head)

-- The counters of a valid queue have room for one more round trip.
abbrev pub HasRoom : Queue → ℕ → Type 0
HasRoom q n = q.tail + q.capacity + n < 2 ^ 63

pub other_slot :
    (q : Queue) (p p' : ℕ) (s : Slot)
    → p < p'
    → p' < p + q.capacity
    → (slot_at (set_slot q p s) p' ≡ slot_at q p') × (slot_at (set_slot q p' s) p ≡ slot_at q p)
other_slot q p p' s h k = (
  get_or-set_ne q.slots s absent (λ e. mod-ne p p' q.capacity h k (sym e)),
  get_or-set_ne q.slots s absent (mod-ne p p' q.capacity h k),
)

pub after_push-IsValid :
    (q : Queue) (item : ℕ)
    → IsValid q
    → q.tail < q.head + q.capacity
    → HasRoom q 1
    → IsValid (after_push q item)
after_push-IsValid q item v h small = record {
  room = v.room;
  size = length-set q.slots (q.tail % q.capacity) s ∙ v.size;
  order = omega (arith, v.order);
  within = omega arith;
  small = omega arith;
  free = λ p lo hi.
      rw (other_slot q q.tail p s (omega arith) (omega arith)).0 (v.free p (omega arith) hi);
  full = λ p lo hi. elim (dec_lt p q.tail) [
    | yes old ↦ rw (other_slot q p q.tail s old (omega arith)).1 (v.full p lo old)
    | no new ↦ let e : p ≡ q.tail = omega arith in rw (e, slot_at-set_self q q.tail s v.room v.size)
  ];
}
  where
    s : Slot
    s = record { seq = q.tail + 1; value = item }

pub after_pop-IsValid :
    (q : Queue) → IsValid q → q.head < q.tail → HasRoom q 1 → IsValid (after_pop q)
after_pop-IsValid q v h small = record {
  room = v.room;
  size = length-set q.slots (q.head % q.capacity) s ∙ v.size;
  order = omega arith;
  within = omega (arith, v.within);
  small = v.small;
  free = λ p lo hi. elim (dec_lt p (q.head + q.capacity)) [
    | yes old ↦ rw (other_slot q q.head p s (omega arith) old).0 (v.free p lo old)
    | no new ↦
        let e : p ≡ q.head + q.capacity = omega arith in
        rw (e, mod-add_self q.head q.capacity, slot_at-set_self q q.head s v.room v.size)
  ];
  full = λ p lo hi.
      rw (other_slot q q.head p s (omega arith) (omega (arith, v.within))).0
        (v.full p (omega arith) hi);
}
  where
    s : Slot
    s = record { seq = q.head + q.capacity; value = (slot_at q q.head).value }
