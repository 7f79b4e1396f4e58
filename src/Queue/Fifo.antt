-- ===== src/Queue/Fifo.antt =====
-- The queue as a client sees it: a bounded FIFO of pointers, oldest first.
use ferretptimize.Common.{
  ℕ, zero, suc, ◌+◌, ◌-◌, ◌%◌, ◌^◌, ◌≤◌, ◌<◌, ◌≡◌, ◌∙◌, refl, ap, ap₂, arith, length, some, true,
  Option, some, List, [], ◌∷◌, ◌++◌, ltb, if◌then◌else◌, get_or,
}
use ferretptimize.Queue.{
  Slot, Queue, absent, slot_at, create, fresh_slots, push, pop, Status, done, eagain,
}
use ferretptimize.Queue.Slots.{IsValid}
use ferretptimize.Queue.Alone.{
  after_push, after_pop, HasRoom, other_slot, slot_at-set_self, push_room, push_no_room, pop-some,
  pop-none, after_push-IsValid, after_pop-IsValid,
}
use native.Mathlib.Decide.{dec_lt}

-- The bounded FIFO.
abbrev pub fifo_push : ℕ → List ℕ → ℕ → List ℕ × Status
fifo_push n items item =
    if ltb (length items) n then (items ++ (item ∷ []), done) else (items, eagain)

abbrev pub fifo_pop : List ℕ → List ℕ × Status × ℕ
fifo_pop [] = ([], eagain, 0)
fifo_pop (x ∷ xs) = (xs, done, x)

-- A client's call: a push of a pointer, or a pop.
pub data Call : Type 0 where
  put : ℕ → Call
  take : Call

abbrev pub Reply : Type 0
Reply = Option (Status × ℕ)

unfoldable pub fifo_run : ℕ → List ℕ → List Call → List Reply
fifo_run n items [] = []
fifo_run n items (put x ∷ calls) =
    let (items', s) = fifo_push n items x in some (s, 0) ∷ fifo_run n items' calls
fifo_run n items (take ∷ calls) =
    let (items', s, x) = fifo_pop items in some (s, x) ∷ fifo_run n items' calls

-- The calls on the queue itself.
unfoldable pub run : Option Queue → List Call → List Reply
run q [] = []
run q (put x ∷ calls) = let (q', r) = push q x in r ∷ run q' calls
run q (take ∷ calls) = let (q', r) = pop q in r ∷ run q' calls

-- The pointers in `n` slots from position `h` on.
abbrev pub held : Queue → ℕ → ℕ → List ℕ
held q h zero = []
held q h (suc n) = (slot_at q h).value ∷ held q (h + 1) n

abbrev pub contents : Queue → List ℕ
contents q = held q q.head (q.tail - q.head)

length-held : (q : Queue) (h n : ℕ) → length (held q h n) ≡ n
length-held q h zero = refl
length-held q h (suc n) = ap suc (length-held q (h + 1) n)

held-after_push :
    (q : Queue) (item : ℕ)
    → IsValid q
    → (h n : ℕ) → h + n ≡ q.tail
    → q.tail < h + q.capacity
    → held (after_push q item) h (suc n) ≡ held q h n ++ (item ∷ [])
held-after_push q item v h zero e k =
    let e' : h ≡ q.tail = omega arith in
    rw (e', slot_at-set_self q q.tail (record { seq = q.tail + 1; value = item }) v.room v.size)
held-after_push q item v h (suc n) e k =
    ap₂ (λ (s : Slot) l. s.value ∷ l)
      (other_slot q h q.tail (record { seq = q.tail + 1; value = item }) (omega arith) k).1
      (held-after_push q item v (h + 1) n (omega arith) (omega arith))

held-after_pop :
    (q : Queue)
    → IsValid q
    → (h n : ℕ) → q.head < h
    → h + n ≤ q.head + q.capacity
    → held (after_pop q) h n ≡ held q h n
held-after_pop q v h zero lo hi = refl
held-after_pop q v h (suc n) lo hi =
    ap₂ (λ (s : Slot) l. s.value ∷ l)
      (other_slot q q.head h
        (record { seq = q.head + q.capacity; value = (slot_at q q.head).value }) lo (omega arith)).0
      (held-after_pop q v (h + 1) n (omega arith) (omega arith))

pub contents-after_push :
    (q : Queue) (item : ℕ)
    → IsValid q
    → q.tail < q.head + q.capacity
    → contents (after_push q item) ≡ contents q ++ (item ∷ [])
contents-after_push q item v h =
    let e : q.tail + 1 - q.head ≡ suc (q.tail - q.head) = omega (arith, v.order) in
    rw e (held-after_push q item v q.head (q.tail - q.head) (omega (arith, v.order)) h)

pub contents-after_pop :
    (q : Queue)
    → IsValid q
    → q.head < q.tail
    → contents q ≡ (slot_at q q.head).value ∷ contents (after_pop q)
contents-after_pop q v h =
    let e : q.tail - q.head ≡ suc (q.tail - (q.head + 1)) = omega arith in
    rw (
      e,
      held-after_pop q v (q.head + 1) (q.tail - (q.head + 1)) (omega arith)
          (omega (arith, v.within)),
    )

-- One push: the status of the FIFO, and a valid queue that holds what the FIFO holds.
record Pushed (q : Queue) (item : ℕ) : Type 0 where
  next : Queue
  returns : push (some q) item ≡ (some next, some ((fifo_push q.capacity (contents q) item).1, 0))
  holds : contents next ≡ (fifo_push q.capacity (contents q) item).0
  valid : IsValid next
  same_capacity : next.capacity ≡ q.capacity
  room : (n : ℕ) → HasRoom q (suc n) → HasRoom next n

push_refines : (q : Queue) (item : ℕ) → IsValid q → HasRoom q 1 → Pushed q item
push_refines q item v small = elim (dec_lt q.tail (q.head + q.capacity)) [
  | yes h ↦ record {
    next = after_push q item;
    returns = ground (arith, push_room q item v h, length-held q q.head (q.tail - q.head));
    holds = ground (arith, contents-after_push q item v h, length-held q q.head (q.tail - q.head));
    valid = after_push-IsValid q item v h small;
    same_capacity = refl;
    room = λ n k. omega arith;
  }
  | no h ↦ record {
    next = q;
    returns = ground (
      arith,
      push_no_room q item v (omega (arith, v.within)),
      length-held q q.head (q.tail - q.head),
    );
    holds = ground (arith, v.within, length-held q q.head (q.tail - q.head));
    valid = v;
    same_capacity = refl;
    room = λ n k. omega arith;
  }
]

record Popped (q : Queue) : Type 0 where
  next : Queue
  returns : pop (some q) ≡ (some next, some ((fifo_pop (contents q)).1, (fifo_pop (contents q)).2))
  holds : contents next ≡ (fifo_pop (contents q)).0
  valid : IsValid next
  same_capacity : next.capacity ≡ q.capacity
  room : (n : ℕ) → HasRoom q (suc n) → HasRoom next n

pop_refines : (q : Queue) → IsValid q → HasRoom q 1 → Popped q
pop_refines q v small = elim (dec_lt q.head q.tail) [
  | yes h ↦ record {
    next = after_pop q;
    returns = rw (contents-after_pop q v h) (pop-some q v h);
    holds = rw (contents-after_pop q v h) refl;
    valid = after_pop-IsValid q v h small;
    same_capacity = refl;
    room = λ n k. omega arith;
  }
  | no h ↦
      let e : q.tail - q.head ≡ 0 = omega arith in
      record {
        next = q;
        returns = rw e (pop-none q v (omega (arith, v.order)));
        holds = rw e;
        valid = v;
        same_capacity = refl;
        room = λ n k. omega arith;
      }
]

-- On a valid queue no sequence of calls made one after another can be told from the same calls on
-- the bounded FIFO that starts with the queue's contents, as long as the counters stay below 2 ^ 63.
pub run-fifo_run :
    (calls : List Call) (q : Queue)
    → IsValid q
    → HasRoom q (length calls)
    → run (some q) calls ≡ fifo_run q.capacity (contents q) calls
unfolding run fifo_run
run-fifo_run [] q v small = refl
run-fifo_run (put x ∷ calls) q v small =
    let p = push_refines q x v (omega arith) in
    rw (p.returns, run-fifo_run calls p.next p.valid (p.room _ small), p.holds, p.same_capacity)
run-fifo_run (take ∷ calls) q v small =
    let p = pop_refines q v (omega arith) in
    rw (p.returns, run-fifo_run calls p.next p.valid (p.room _ small), p.holds, p.same_capacity)

pub length-fresh_slots : (n i : ℕ) → length (fresh_slots n i) ≡ n
unfolding fresh_slots
length-fresh_slots zero i = refl
length-fresh_slots (suc n) i = ap suc (length-fresh_slots n (i + 1))

pub get_or-fresh_slots : (n i k : ℕ) → k < n → (get_or (fresh_slots n i) k absent).seq ≡ i + k
unfolding fresh_slots
get_or-fresh_slots zero i k h = absurd (omega arith)
get_or-fresh_slots (suc n) i zero h = omega arith
get_or-fresh_slots (suc n) i (suc k) h = get_or-fresh_slots n (i + 1) k (omega arith) ∙ omega arith

abbrev pub fresh : ℕ → Queue
fresh n = record { capacity = n; slots = fresh_slots n 0; head = 0; tail = 0 }

fresh-IsValid : (n : ℕ) → 2 ≤ n → n < 2 ^ 63 → IsValid (fresh n)
fresh-IsValid n lo hi = record {
  room = lo;
  size = length-fresh_slots n 0;
  order = omega arith;
  within = omega arith;
  small = omega arith;
  free = λ p _ h.
      let e : p % n ≡ p = grind arith in
      rw e (get_or-fresh_slots n 0 p (omega arith) ∙ omega arith);
  full = λ p _ h. absurd (omega arith);
}

pub create-fresh : (n : ℕ) → 2 ≤ n → create true true n ≡ some (fresh n)
unfolding create
create-fresh n h = ground arith

-- A queue that `fp_queue_create` makes with room for two items or more is the empty bounded FIFO of
-- that capacity: every sequence of calls gets the same replies, while the counters stay below
-- 2 ^ 63.
pub run-create :
    (n : ℕ) (calls : List Call)
    → 2 ≤ n
    → n + length calls < 2 ^ 63
    → run (create true true n) calls ≡ fifo_run n [] calls
run-create n calls lo hi =
    rw (create-fresh n lo)
      (run-fifo_run calls (fresh n) (fresh-IsValid n lo (omega arith)) (omega arith))
