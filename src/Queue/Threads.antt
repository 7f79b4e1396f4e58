-- ===== src/Queue/Threads.antt =====
-- Any number of threads that call `fp_queue_push` and `fp_queue_pop` of src/queue.c on one queue, their
-- steps interleaved in any order. Beside them runs the FIFO that the queue stands for: a push enters it
-- where its compare-exchange succeeds, and a pop leaves it there.
pub mod Invariant
pub mod Others
pub mod Moves
pub mod Own
pub mod Branches
pub mod Steps
pub mod Linear
mod Tests
use ferretptimize.Common.{
  ℕ, zero, suc, ◌+◌, ◌^◌, ◌<◌, ◌≡◌, Bool, true, false, Option, none, some, List, [], ◌∷◌, ◌++◌,
  ◌==◌, if◌then◌else◌,
}
use ferretptimize.Queue.{
  Queue, Pc, push_load, push_seq, push_cas, push_write, push_publish, pushed, push_full, pop_load,
  pop_seq, pop_cas, pop_read, pop_release, popped, pop_empty, step,
}

abbrev pub with_entry : {A : Type 0} → (ℕ → A) → ℕ → A → ℕ → A
with_entry f i a j = if j == i then a else f j

-- What the FIFO holds after a step from one place to another.
unfoldable pub commit : Pc → Pc → List ℕ → List ℕ
commit (push_cas item at) (push_write item' at') items = items ++ (item ∷ [])
commit (pop_cas at) (pop_read at') (x ∷ items) = items
commit _ _ items = items

-- The pointer that the FIFO gave to the thread's last pop, none if it was empty.
unfoldable pub promise : Pc → Pc → List ℕ → Option ℕ → Option ℕ
promise (pop_cas at) (pop_read at') (x ∷ items) before = some x
promise (pop_cas at) (pop_read at') [] before = none
promise _ _ items before = before

pub record System : Type 0 where
  pub queue : Queue
  pub pc : ℕ → Pc
  pub items : List ℕ
  pub promised : ℕ → Option ℕ

-- Thread `i` makes a step.
unfoldable pub act : System → ℕ → Bool → System
act s i spurious =
    let (q, c) = step spurious s.queue (s.pc i) in
    record {
      queue = q;
      pc = with_entry s.pc i c;
      items = commit (s.pc i) c s.items;
      promised = with_entry s.promised i (promise (s.pc i) c s.items (s.promised i));
    }

abbrev pub is_finished : Pc → Bool
is_finished pushed = true
is_finished push_full = true
is_finished (popped item) = true
is_finished pop_empty = true
is_finished _ = false

-- Thread `i` makes a new call.
unfoldable pub begin : System → ℕ → Pc → System
begin s i c = record {
  queue = s.queue;
  pc = with_entry s.pc i c;
  items = s.items;
  promised = with_entry s.promised i none;
}

-- A thread that is in a call makes a step, one that is not begins a call. The counters stay clear of
-- the sign bit: fewer than 2 ^ 63 pointers are pushed, less the capacity.
pub data Step (s : System) : System → Type 0 where
  acts :
      (i : ℕ) (spurious : Bool)
      → s.queue.tail + s.queue.capacity + 1 < 2 ^ 63
      → Step s (act s i spurious)
  pushes : (i item : ℕ) → is_finished (s.pc i) ≡ true → Step s (begin s i (push_load item))
  pops : (i : ℕ) → is_finished (s.pc i) ≡ true → Step s (begin s i pop_load)

-- A new queue, with no thread in a call.
abbrev pub started : Queue → System
started q = record { queue = q; pc = λ i. pushed; items = []; promised = λ i. none }

pub data Reach (q : Queue) : System → Type 0 where
  start : Reach q (started q)
  later : {s t : System} → Reach q s → Step s t → Reach q t
