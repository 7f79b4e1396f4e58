-- ===== src/Queue/Threads/Moves.antt =====
-- The five steps of src/queue.c that change the queue keep what all threads share.
use ferretptimize.Common.{
  ℕ, suc, ◌+◌, ◌-◌, ◌%◌, ◌≤◌, ◌<◌, ◌≡◌, ◌≢◌, ◌∙◌, inl, inr, refl, sym, ap, Option, some, List, [],
  ◌∷◌, ◌++◌, length, length-append, length-set, get_elem?, get_elem?-append_left,
  get_elem?-append_right, arith,
}
use ferretptimize.Queue.{
  Slot, Queue, slot_at, set_slot, Pc, push_load, push_seq, push_cas, push_write, push_publish,
  pushed, push_full, pop_load, pop_seq, pop_cas, pop_read, pop_release, popped, pop_empty,
}
use ferretptimize.Queue.Threads.Invariant.{
  IsWriting, Ok, Shared, slot-cases, next-apart, round-apart,
}

abbrev pub with_tail : Queue → ℕ → Queue
with_tail q n = record q { tail = n }

abbrev pub with_head : Queue → ℕ → Queue
with_head q n = record q { head = n }

-- A push that wins its ticket enters the FIFO.
module _ (q : Queue) (items : List ℕ) (shared : Shared q items) (item : ℕ) where
  entered-later :
      (x k : ℕ)
      → get_elem? items k ≡ some x
      → k < length items
      → get_elem? (items ++ (item ∷ [])) k ≡ some x
  entered-later x k e h = get_elem?-append_left items (item ∷ []) k h ∙ e

  enter-IsWriting :
      (x p : ℕ)
      → IsWriting q items x p
      → IsWriting (with_tail q (q.tail + 1)) (items ++ (item ∷ [])) x p
  enter-IsWriting x p w = record {
    drawn = omega (arith, w.drawn);
    waiting = w.waiting;
    seq = w.seq;
    entered =
        entered-later x (p - q.head) w.entered (omega (arith, w.drawn, w.waiting, shared.count));
  }

  pub enter-Ok :
      (promised : Option ℕ) (c : Pc)
      → Ok q items promised c
      → Ok (with_tail q (q.tail + 1)) (items ++ (item ∷ [])) promised c
  enter-Ok promised (push_write x p) o = enter-IsWriting x p o
  enter-Ok promised (push_publish x p) o = (enter-IsWriting x p o.0, o.1)
  enter-Ok promised (push_cas x p) o = (omega (arith, o.0), λ e. absurd (omega (arith, e, o.0)))
  enter-Ok promised (push_seq x p) o = omega (arith, o)
  enter-Ok promised (pop_cas p) o = o
  enter-Ok promised (pop_read p) o = o
  enter-Ok promised (pop_release x p) o = o
  enter-Ok promised (push_load x) o = tt
  enter-Ok promised pushed o = tt
  enter-Ok promised push_full o = tt
  enter-Ok promised pop_load o = tt
  enter-Ok promised (pop_seq p) o = o
  enter-Ok promised (popped x) o = o
  enter-Ok promised pop_empty o = tt

  pub enter-Shared :
      (slot_at q q.tail).seq ≡ q.tail → Shared (with_tail q (q.tail + 1)) (items ++ (item ∷ []))
  enter-Shared seq = record {
    room = shared.room;
    size = shared.size;
    count = omega (arith, shared.count, length-append items (item ∷ []));
    within = omega (arith, shared.free q.tail seq);
    below = λ p. omega (arith, shared.below p);
    free = shared.free;
    full = λ p e.
        let (drawn, value) = shared.full p e in
        (
          omega (arith, drawn),
          λ h.
              entered-later (slot_at q p).value (p - q.head) (value h)
                (omega (arith, h, drawn, shared.count)),
        );
  }

  -- Its own ticket: the place behind all others.
  pub enter-own :
      (slot_at q q.tail).seq ≡ q.tail
      → IsWriting (with_tail q (q.tail + 1)) (items ++ (item ∷ [])) item q.tail
  enter-own seq = record {
    drawn = omega arith;
    waiting = omega (arith, shared.count);
    seq = seq;
    entered =
        get_elem?-append_right items (item ∷ []) (q.tail - q.head) 0 (omega (arith, shared.count));
  }

-- A pop that wins its ticket leaves the FIFO.
module _ (q : Queue) (x : ℕ) (items : List ℕ) (shared : Shared q (x ∷ items))
    (seq : (slot_at q q.head).seq ≡ q.head + 1) where
  left-IsWriting :
      (y p : ℕ) → IsWriting q (x ∷ items) y p → IsWriting (with_head q (q.head + 1)) items y p
  left-IsWriting y p w =
      let apart : p ≢ q.head = λ e.
        let twice : p ≡ q.head + 1 = sym w.seq ∙ ap (λ (n : ℕ). (slot_at q n).seq) e ∙ seq in
        absurd (omega (arith, twice, e)) in
      let back : p - q.head ≡ suc (p - (q.head + 1)) = omega (arith, w.waiting, apart) in
      record {
        drawn = w.drawn;
        waiting = omega (arith, w.waiting, apart);
        seq = w.seq;
        entered = ap (get_elem? (x ∷ items)) (sym back) ∙ w.entered;
      }

  pub leave-Ok :
      (promised : Option ℕ) (c : Pc)
      → Ok q (x ∷ items) promised c
      → Ok (with_head q (q.head + 1)) items promised c
  leave-Ok promised (push_write y p) o = left-IsWriting y p o
  leave-Ok promised (push_publish y p) o = (left-IsWriting y p o.0, o.1)
  leave-Ok promised (push_cas y p) o = o
  leave-Ok promised (push_seq y p) o = o
  leave-Ok promised (pop_cas p) o = (omega (arith, o.0), λ e. absurd (omega (arith, e, o.0)))
  leave-Ok promised (pop_read p) o = (omega (arith, o.0), o.1, o.2)
  leave-Ok promised (pop_release y p) o = (omega (arith, o.0), o.1, o.2)
  leave-Ok promised (push_load y) o = tt
  leave-Ok promised pushed o = tt
  leave-Ok promised push_full o = tt
  leave-Ok promised pop_load o = tt
  leave-Ok promised (pop_seq p) o = omega (arith, o)
  leave-Ok promised (popped y) o = o
  leave-Ok promised pop_empty o = tt

  pub leave-Shared : Shared (with_head q (q.head + 1)) items
  leave-Shared = record {
    room = shared.room;
    size = shared.size;
    count = omega (arith, shared.count);
    within = omega (arith, shared.within);
    below = shared.below;
    free = λ p e. omega (arith, shared.free p e);
    full = λ p e.
        let (drawn, value) = shared.full p e in
        (
          drawn,
          λ h.
              let back : p - q.head ≡ suc (p - (q.head + 1)) = omega (arith, h) in
              ap (get_elem? (x ∷ items)) (sym back) ∙ value (omega (arith, h)),
        );
  }

  -- The FIFO gives the pointer in the slot.
  pub leave-value : some x ≡ some (slot_at q q.head).value
  leave-value =
      let none_before : 0 ≡ q.head - q.head = omega arith in
      ap (get_elem? (x ∷ items)) none_before ∙ (shared.full q.head seq).1 (omega arith)

-- A pop wins a ticket only where the FIFO holds a pointer.
pub leave-some :
    (q : Queue) (items : List ℕ)
    → Shared q items
    → (slot_at q q.head).seq ≡ q.head + 1
    → (x : ℕ) × (rest : List ℕ) × (items ≡ x ∷ rest)
leave-some q [] shared seq = absurd (omega (arith, (shared.full q.head seq).0, shared.count))
leave-some q (x ∷ rest) shared seq = (x, rest, refl)

module _ (q : Queue) (items : List ℕ) (shared : Shared q items) (at : ℕ) (v : Slot) where
  -- A slot that is written keeps what all share, if its new contents fit.
  pub written-Shared :
      v.seq ≤ q.tail + q.capacity
      → ((p : ℕ) → p % q.capacity ≡ at % q.capacity → v.seq ≡ p → p < q.head + q.capacity)
      → ((p : ℕ)
          → p % q.capacity ≡ at % q.capacity
          → v.seq ≡ p + 1
          → (p < q.tail) × (q.head ≤ p → get_elem? items (p - q.head) ≡ some v.value))
      → Shared (set_slot q at v) items
  written-Shared small free full = record {
    room = shared.room;
    size = length-set q.slots (at % q.capacity) v ∙ shared.size;
    count = shared.count;
    within = shared.within;
    below = λ p. elim (slot-cases q at p v shared.room shared.size) [
      | inl (same, new, old) ↦ rw new small
      | inr kept ↦ rw kept (shared.below p)
    ];
    free = λ p e. elim (slot-cases q at p v shared.room shared.size) [
      | inl (same, new, old) ↦ free p same (ap (λ (s : Slot). s.seq) (sym new) ∙ e)
      | inr kept ↦ shared.free p (ap (λ (s : Slot). s.seq) (sym kept) ∙ e)
    ];
    full = λ p e. elim (slot-cases q at p v shared.room shared.size) [
      | inl (same, new, old) ↦ rw new (full p same (ap (λ (s : Slot). s.seq) (sym new) ∙ e))
      | inr kept ↦ rw kept (shared.full p (ap (λ (s : Slot). s.seq) (sym kept) ∙ e))
    ];
  }

module _ (q : Queue) (items : List ℕ) (shared : Shared q items) (item at : ℕ)
    (w : IsWriting q items item at) where
  pub write-Shared :
      Shared (set_slot q at (record { seq = (slot_at q at).seq; value = item })) items
  write-Shared =
      written-Shared q items shared at (record { seq = (slot_at q at).seq; value = item })
        (shared.below at)
        (λ p same e.
          let here : p ≡ at = sym e ∙ w.seq in omega (arith, here, w.drawn, shared.within))
        (λ p same e. absurd (
          next-apart p q.capacity shared.room
            (ap (λ (n : ℕ). n % q.capacity) (sym e ∙ w.seq) ∙ sym same)))

  pub publish-Shared :
      (slot_at q at).value ≡ item
      → Shared (set_slot q at (record { seq = at + 1; value = (slot_at q at).value })) items
  publish-Shared value =
      written-Shared q items shared at (record { seq = at + 1; value = (slot_at q at).value })
        (omega (arith, w.drawn))
        (λ p same e.
          absurd (next-apart at q.capacity shared.room (ap (λ (n : ℕ). n % q.capacity) e ∙ same)))
        (λ p same e.
          let here : p ≡ at = omega (arith, e) in
          (
            omega (arith, here, w.drawn),
            λ h.
                ap (λ (n : ℕ). get_elem? items (n - q.head)) here ∙ w.entered ∙ ap some (sym value),
          ))

pub release-Shared :
    (q : Queue) (items : List ℕ)
    → Shared q items
    → (at : ℕ) → at < q.head
    → Shared (set_slot q at (record { seq = at + q.capacity; value = (slot_at q at).value })) items
release-Shared q items shared at drawn =
    written-Shared q items shared at
      (record { seq = at + q.capacity; value = (slot_at q at).value })
      (omega (arith, drawn, shared.count)) (λ p same e. omega (arith, e, drawn))
      (λ p same e. absurd (round-apart p at q.capacity shared.room same (sym e)))
