-- ===== src/Queue/Threads/Others.antt =====
-- A step of one thread on a slot leaves alone what the other threads of src/queue.c rely on.
use ferretptimize.Common.{
  ℕ, ◌+◌, ◌%◌, ◌<◌, ◌≡◌, ◌≢◌, ◌∙◌, inl, inr, sym, ap, Option, some, List, arith,
}
use ferretptimize.Queue.{
  Slot, Queue, slot_at, set_slot, Pc, push_load, push_seq, push_cas, push_write, push_publish,
  pushed, push_full, pop_load, pop_seq, pop_cas, pop_read, pop_release, popped, pop_empty,
}
use ferretptimize.Queue.Threads.Invariant.{
  writes, reads, IsWriting, Ok, Shared, slot-cases, next-apart,
}

-- What the thread looks at is as before.
abbrev Spared : Queue → Queue → Pc → Type 0
Spared q q' (push_cas item p) = p ≡ q.tail → slot_at q' p ≡ slot_at q p
Spared q q' (push_write item p) = slot_at q' p ≡ slot_at q p
Spared q q' (push_publish item p) = slot_at q' p ≡ slot_at q p
Spared q q' (pop_cas p) = p ≡ q.head → slot_at q' p ≡ slot_at q p
Spared q q' (pop_read p) = slot_at q' p ≡ slot_at q p
Spared q q' (pop_release item p) = slot_at q' p ≡ slot_at q p
Spared q q' _ = Unit {0}

spared-IsWriting :
    (q : Queue) (at : ℕ) (v : Slot) (items : List ℕ) (item p : ℕ)
    → slot_at (set_slot q at v) p ≡ slot_at q p
    → IsWriting q items item p
    → IsWriting (set_slot q at v) items item p
spared-IsWriting q at v items item p kept w = record {
  drawn = w.drawn;
  waiting = w.waiting;
  seq = ap (λ (s : Slot). s.seq) kept ∙ w.seq;
  entered = w.entered;
}

Spared-Ok :
    (q : Queue) (at : ℕ) (v : Slot) (items : List ℕ) (promised : Option ℕ) (c : Pc)
    → Spared q (set_slot q at v) c
    → Ok q items promised c
    → Ok (set_slot q at v) items promised c
Spared-Ok q at v items promised (push_write item p) kept o =
    spared-IsWriting q at v items item p kept o
Spared-Ok q at v items promised (push_publish item p) kept o =
    (spared-IsWriting q at v items item p kept o.0, ap (λ (s : Slot). s.value) kept ∙ o.1)
Spared-Ok q at v items promised (push_cas item p) kept o =
    (o.0, λ e. ap (λ (s : Slot). s.seq) (kept e) ∙ o.1 e)
Spared-Ok q at v items promised (pop_cas p) kept o =
    (o.0, λ e. ap (λ (s : Slot). s.seq) (kept e) ∙ o.1 e)
Spared-Ok q at v items promised (pop_read p) kept o =
    (o.0, ap (λ (s : Slot). s.seq) kept ∙ o.1, o.2 ∙ ap (λ (s : Slot). some s.value) (sym kept))
Spared-Ok q at v items promised (pop_release item p) kept o =
    (o.0, ap (λ (s : Slot). s.seq) kept ∙ o.1, o.2)
Spared-Ok q at v items promised (push_load item) kept o = tt
Spared-Ok q at v items promised (push_seq item p) kept o = o
Spared-Ok q at v items promised pushed kept o = tt
Spared-Ok q at v items promised push_full kept o = tt
Spared-Ok q at v items promised pop_load kept o = tt
Spared-Ok q at v items promised (pop_seq p) kept o = o
Spared-Ok q at v items promised (popped item) kept o = o
Spared-Ok q at v items promised pop_empty kept o = tt

module _ (q : Queue) (items : List ℕ) (shared : Shared q items) (at : ℕ) (v : Slot) where
  abbrev q' : Queue
  q' = set_slot q at v

  kept-by :
      (p : ℕ)
      → (p % q.capacity ≡ at % q.capacity → slot_at q p ≢ slot_at q at)
      → slot_at q' p ≡ slot_at q p
  kept-by p apart = elim (slot-cases q at p v shared.room shared.size) [
    | inl (same, written, old) ↦ absurd (apart same old)
    | inr kept ↦ kept
  ]

  -- The slot of `at` waits for its pointer.
  module _ (seq : (slot_at q at).seq ≡ at) (drawn : at < q.tail) where
    waiting-kept : (p : ℕ) → (slot_at q p).seq ≡ p → p ≢ at → slot_at q' p ≡ slot_at q p
    waiting-kept p e apart =
        kept-by p (λ same old. apart (sym e ∙ ap (λ (s : Slot). s.seq) old ∙ seq))

    filled-kept : (p : ℕ) → (slot_at q p).seq ≡ p + 1 → slot_at q' p ≡ slot_at q p
    filled-kept p e = kept-by p (λ same old.
        next-apart p q.capacity shared.room
          (ap (λ (n : ℕ). n % q.capacity) (sym e ∙ ap (λ (s : Slot). s.seq) old ∙ seq) ∙ sym same))

    pub spared_by_writer :
        (promised : Option ℕ) (c : Pc)
        → writes c ≢ some at
        → Ok q items promised c
        → Ok q' items promised c
    spared_by_writer promised c apart o = Spared-Ok q at v items promised c (spared c apart o) o
      where
        spared : (c : Pc) → writes c ≢ some at → Ok q items promised c → Spared q q' c
        spared (push_write item p) apart o = waiting-kept p o.seq (λ e. apart (ap some e))
        spared (push_publish item p) apart o = waiting-kept p o.0.seq (λ e. apart (ap some e))
        spared (push_cas item p) apart o = λ e. waiting-kept p (o.1 e) (omega (arith, e, drawn))
        spared (pop_cas p) apart o = λ e. filled-kept p (o.1 e)
        spared (pop_read p) apart o = filled-kept p o.1
        spared (pop_release item p) apart o = filled-kept p o.1
        spared (push_load item) apart o = tt
        spared (push_seq item p) apart o = tt
        spared pushed apart o = tt
        spared push_full apart o = tt
        spared pop_load apart o = tt
        spared (pop_seq p) apart o = tt
        spared (popped item) apart o = tt
        spared pop_empty apart o = tt

  -- The slot of `at` is being read.
  module _ (seq : (slot_at q at).seq ≡ at + 1) (drawn : at < q.head) where
    waiting_kept : (p : ℕ) → (slot_at q p).seq ≡ p → slot_at q' p ≡ slot_at q p
    waiting_kept p e = kept-by p (λ same old.
        next-apart at q.capacity shared.room (
          ap (λ (n : ℕ). n % q.capacity) (sym (sym e ∙ ap (λ (s : Slot). s.seq) old ∙ seq)) ∙ same))

    filled_kept : (p : ℕ) → (slot_at q p).seq ≡ p + 1 → p ≢ at → slot_at q' p ≡ slot_at q p
    filled_kept p e apart = kept-by p (λ same old.
        let next : p + 1 ≡ at + 1 = sym e ∙ ap (λ (s : Slot). s.seq) old ∙ seq in
        apart (omega (arith, next)))

    pub spared_by_reader :
        (promised : Option ℕ) (c : Pc)
        → reads c ≢ some at
        → Ok q items promised c
        → Ok q' items promised c
    spared_by_reader promised c apart o = Spared-Ok q at v items promised c (spared c apart o) o
      where
        spared : (c : Pc) → reads c ≢ some at → Ok q items promised c → Spared q q' c
        spared (push_write item p) apart o = waiting_kept p o.seq
        spared (push_publish item p) apart o = waiting_kept p o.0.seq
        spared (push_cas item p) apart o = λ e. waiting_kept p (o.1 e)
        spared (pop_cas p) apart o = λ e. filled_kept p (o.1 e) (omega (arith, e, drawn))
        spared (pop_read p) apart o = filled_kept p o.1 (λ e. apart (ap some e))
        spared (pop_release item p) apart o = filled_kept p o.1 (λ e. apart (ap some e))
        spared (push_load item) apart o = tt
        spared (push_seq item p) apart o = tt
        spared pushed apart o = tt
        spared push_full apart o = tt
        spared pop_load apart o = tt
        spared (pop_seq p) apart o = tt
        spared (popped item) apart o = tt
        spared pop_empty apart o = tt
