-- ===== src/Queue/Threads/Linear.antt =====
-- Calls of src/queue.c that interleave answer as one FIFO of the queue's capacity does.
use ferretptimize.Common.{
  ℕ, ◌%◌, ◌≤◌, ◌<◌, ◌≡◌, ◌∙◌, refl, sym, ap, Bool, true, none, some, length, arith,
}
use mathlib.Core.Path.{subst}
use ferretptimize.Queue.{create, Queue, slot_at, Pc, push_load, pop_load, popped, step}
use ferretptimize.Queue.Threads.{
  System, commit, promise, act, begin, Step, acts, pushes, pops, started, Reach, start, later,
}
use ferretptimize.Queue.Threads.Invariant.{writes, reads, Ok, Inv}
use ferretptimize.Queue.Fifo.{fresh, get_or-fresh_slots, length-fresh_slots, create-fresh}
use ferretptimize.Queue.Threads.Own.{moved_to, Moved-Inv, stands}
use ferretptimize.Queue.Threads.Steps.{Small, step-Moved}

-- A call that begins holds no ticket.
begin-Inv :
    (s : System) (i : ℕ) (c : Pc)
    → Inv s
    → Ok s.queue s.items none c
    → writes c ≡ none
    → reads c ≡ none
    → Inv (begin s i c)
unfolding begin moved_to
begin-Inv s i c inv own written read = Moved-Inv s i s.queue s.items c none inv (record {
  shared = inv.shared;
  own = own;
  others = λ j apart. inv.threads j;
  writer = λ t e j apart h. absurd (ground (arith, sym written ∙ e));
  reader = λ t e j apart h. absurd (ground (arith, sym read ∙ e));
})

-- Any thread may make any step.
act-Inv : (s : System) (i : ℕ) (spurious : Bool) → Small s → Inv s → Inv (act s i spurious)
unfolding act moved_to
act-Inv s i spurious small inv =
    let (q, c) = step spurious s.queue (s.pc i) in
    Moved-Inv s i q (commit (s.pc i) c s.items) c (promise (s.pc i) c s.items (s.promised i)) inv
      (step-Moved s i spurious (s.pc i) refl small inv)

fresh-seq : (n p : ℕ) → 2 ≤ n → ((slot_at (fresh n) p).seq ≡ p % n) × (p % n < n) × (p % n ≤ p)
fresh-seq n p h =
    let small : p % n < n = grind arith in
    (get_or-fresh_slots n 0 (p % n) small ∙ omega arith, small, grind arith)

started-Inv : (n : ℕ) → 2 ≤ n → Inv (started (fresh n))
started-Inv n h = record {
  shared = record {
    room = h;
    size = length-fresh_slots n 0;
    count = refl;
    within = omega arith;
    below = λ p. let e = fresh-seq n p h in omega (arith, e.0, e.1);
    free = λ p own. let e = fresh-seq n p h in omega (arith, own, e.0, e.1);
    full = λ p own. let e = fresh-seq n p h in absurd (omega (arith, own, e.0, e.2));
  };
  threads = λ i. tt;
  one_writer = λ i j t e. absurd (ground (arith, e));
  one_reader = λ i j t e. absurd (ground (arith, e));
}

Step-Inv : {s t : System} → Step s t → Inv s → Inv t
Step-Inv {s} (acts i spurious small) inv = act-Inv s i spurious small inv
Step-Inv {s} (pushes i item idle) inv = begin-Inv s i (push_load item) inv tt refl refl
Step-Inv {s} (pops i idle) inv = begin-Inv s i pop_load inv tt refl refl

Reach-Inv : {q : Queue} {s : System} → Inv (started q) → Reach q s → Inv s
Reach-Inv inv start = inv
Reach-Inv inv (later r m) = Step-Inv m (Reach-Inv inv r)

step-capacity : (spurious : Bool) (q : Queue) (c : Pc) → (step spurious q c).0.capacity ≡ q.capacity
unfolding step
step-capacity spurious q c = ground arith

Step-capacity : {s t : System} → Step s t → t.queue.capacity ≡ s.queue.capacity
unfolding act begin
Step-capacity {s} (acts i spurious small) = step-capacity spurious s.queue (s.pc i)
Step-capacity (pushes i item idle) = refl
Step-capacity (pops i idle) = refl

Reach-capacity : {q : Queue} {s : System} → Reach q s → s.queue.capacity ≡ q.capacity
Reach-capacity start = refl
Reach-capacity (later r m) = Step-capacity m ∙ Reach-capacity r

created-Inv :
    (n : ℕ) (q : Queue) (s : System)
    → 2 ≤ n
    → create true true n ≡ some q
    → Reach q s
    → Inv s × (s.queue.capacity ≡ n)
created-Inv n q s h made r =
    let same : fresh n ≡ q = ground (arith, create-fresh n h, made) in
    (
      Reach-Inv (subst (λ (x : Queue). Inv (started x)) same (started-Inv n h)) r,
      Reach-capacity r ∙ ap (λ (x : Queue). x.capacity) (sym same),
    )

-- What each thread whose pop has just returned a pointer was given.
abbrev pub ArePromised : System → Type 0
ArePromised s = (i item : ℕ) → s.pc i ≡ popped item → s.promised i ≡ some item

-- On a queue created with room for two pointers or more, any number of threads push and pop with their
-- steps in any order, fewer than 2 ^ 63 less the capacity pushed. In every state that they reach, the
-- FIFO holds no more pointers than the capacity, and each thread whose pop has just returned a pointer
-- has the one that the FIFO gave it where its compare-exchange succeeded.
pub popped-promised :
    (n : ℕ) (q : Queue) (s : System)
    → 2 ≤ n
    → create true true n ≡ some q
    → Reach q s
    → (length s.items ≤ n) × ArePromised s
popped-promised n q s h made r =
    let (inv, size) = created-Inv n q s h made r in
    (
      omega (arith, size, inv.shared.within, inv.shared.count),
      (λ i item e. stands s i (popped item) e inv),
    )
