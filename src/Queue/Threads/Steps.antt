-- ===== src/Queue/Threads/Steps.antt =====
-- Every step of src/queue.c keeps what holds between steps.
use ferretptimize.Common.{
  ℕ, ◌+◌, ◌^◌, ◌<◌, ◌≡◌, ◌∙◌, refl, sym, Bool, true, false, not, ◌&&◌, Option, some, List, ◌∷◌,
  arith, ◌==◌, if◌then◌else◌,
}
use mathlib.Core.Path.{subst}
use ferretptimize.Queue.{
  Queue, slot_at, Pc, push_load, push_seq, push_cas, push_write, push_publish, pushed, push_full,
  pop_load, pop_seq, pop_cas, pop_read, pop_release, popped, pop_empty, step, push_branch,
  pop_branch, diff, add_size,
}
use ferretptimize.Queue.Threads.{System, commit, promise}
use ferretptimize.Queue.Threads.Invariant.{writes, reads, Ok, Shared, Inv}
use ferretptimize.Queue.Threads.Branches.{
  push_branch-writes, push_branch-reads, pop_branch-writes, pop_branch-reads, diff-agree,
  push_branch-Ok, pop_branch-Ok,
}
use ferretptimize.Queue.Threads.Moves.{
  with_tail, with_head, enter-Ok, enter-Shared, enter-own, leave-Ok, leave-Shared, leave-value,
  leave-some, write-Shared, publish-Shared, release-Shared,
}
use ferretptimize.Queue.Threads.Own.{
  Moved, quiet-Moved, idle-Moved, stands, own_slot-Moved, written-Ok, own_read-Moved,
}

-- A drawn ticket is behind its counter.
writes-drawn :
    (q : Queue) (items : List ℕ) (promised : Option ℕ) (c : Pc) (t : ℕ)
    → Ok q items promised c
    → writes c ≡ some t
    → t < q.tail
writes-drawn q items promised (push_write item at) t o e =
    let same : at ≡ t = ground (arith, e) in omega (arith, same, o.drawn)
writes-drawn q items promised (push_publish item at) t o e =
    let same : at ≡ t = ground (arith, e) in omega (arith, same, o.0.drawn)
writes-drawn q items promised _ t o e = absurd (ground (arith, e))

reads-drawn :
    (q : Queue) (items : List ℕ) (promised : Option ℕ) (c : Pc) (t : ℕ)
    → Ok q items promised c
    → reads c ≡ some t
    → t < q.head
reads-drawn q items promised (pop_read at) t o e =
    let same : at ≡ t = ground (arith, e) in omega (arith, same, o.0)
reads-drawn q items promised (pop_release item at) t o e =
    let same : at ≡ t = ground (arith, e) in omega (arith, same, o.0)
reads-drawn q items promised _ t o e = absurd (ground (arith, e))

-- `add_size at 1` and `add_size at q.capacity` do not wrap.
abbrev pub Small : System → Type 0
Small s = s.queue.tail + s.queue.capacity + 1 < 2 ^ 63

abbrev pub After : System → ℕ → Pc → Queue × Pc → Type 0
After s i c (q, c') = Moved s i q (commit c c' s.items) c' (promise c c' s.items (s.promised i))

-- A push at its compare-exchange, which succeeds or not.
push_cas-Moved :
    (s : System) (i item at : ℕ)
    → s.pc i ≡ push_cas item at
    → Small s
    → Inv s
    → (won : Bool) → (won ≡ true → s.queue.tail ≡ at)
    → After s i (push_cas item at) (
        if won
        then (with_tail s.queue (add_size at 1), push_write item at)
        else (s.queue, push_seq item s.queue.tail))
unfolding commit promise
push_cas-Moved s i item at here small inv false same =
    idle-Moved s i (push_cas item at) (push_seq item s.queue.tail) here inv (omega arith) refl refl
push_cas-Moved s i item at here small inv true same =
    let drawn : at ≡ s.queue.tail = sym (same refl) in
    let next : add_size s.queue.tail 1 ≡ s.queue.tail + 1 = omega (arith, small) in
    let ready : (slot_at s.queue s.queue.tail).seq ≡ s.queue.tail =
      subst (λ (p : ℕ). (slot_at s.queue p).seq ≡ p) drawn
        ((stands s i (push_cas item at) here inv).1 drawn) in
    rw (drawn, next)
      (record {
        shared = enter-Shared s.queue s.items inv.shared item ready;
        own = enter-own s.queue s.items inv.shared item ready;
        others = λ j apart.
            enter-Ok s.queue s.items inv.shared item (s.promised j) (s.pc j) (inv.threads j);
        writer = λ t e j apart h.
            let mine : s.queue.tail ≡ t = ground (arith, e) in
            absurd (
              omega (
                arith,
                mine,
                writes-drawn s.queue s.items (s.promised j) (s.pc j) t (inv.threads j) h,
              ));
        reader = λ t e j apart h. absurd (ground (arith, e));
      })

pop_cas-Moved :
    (s : System) (i at : ℕ)
    → s.pc i ≡ pop_cas at
    → Small s
    → Inv s
    → (won : Bool) → (won ≡ true → s.queue.head ≡ at)
    → After s i (pop_cas at) (
        if won
        then (with_head s.queue (add_size at 1), pop_read at)
        else (s.queue, pop_seq s.queue.head))
unfolding commit promise
pop_cas-Moved s i at here small inv false same =
    idle-Moved s i (pop_cas at) (pop_seq s.queue.head) here inv (omega arith) refl refl
pop_cas-Moved s i at here small inv true same =
    let drawn : at ≡ s.queue.head = sym (same refl) in
    let next : add_size s.queue.head 1 ≡ s.queue.head + 1 =
      omega (arith, small, inv.shared.count) in
    let ready : (slot_at s.queue s.queue.head).seq ≡ s.queue.head + 1 =
      subst (λ (p : ℕ). (slot_at s.queue p).seq ≡ p + 1) drawn
        ((stands s i (pop_cas at) here inv).1 drawn) in
    let (x, rest, held) = leave-some s.queue s.items inv.shared ready in
    let shared : Shared s.queue (x ∷ rest) = subst (Shared s.queue) held inv.shared in
    let left : Moved s i (with_head s.queue (s.queue.head + 1)) rest (pop_read s.queue.head)
        (some x) =
      record {
        shared = leave-Shared s.queue x rest shared ready;
        own = (omega arith, ready, leave-value s.queue x rest shared ready);
        others = λ j apart.
            leave-Ok s.queue x rest shared ready (s.promised j) (s.pc j)
              (subst (λ (l : List ℕ). Ok s.queue l (s.promised j) (s.pc j)) held (inv.threads j));
        writer = λ t e j apart h. absurd (ground (arith, e));
        reader = λ t e j apart h.
            let mine : s.queue.head ≡ t = ground (arith, e) in
            absurd (
              omega (
                arith,
                mine,
                reads-drawn s.queue s.items (s.promised j) (s.pc j) t (inv.threads j) h,
              ));
      } in
    rw (drawn, next)
      (subst
        (λ (l : List ℕ).
          Moved s i (with_head s.queue (s.queue.head + 1)) (commit (pop_cas at) (pop_read at) l)
            (pop_read s.queue.head) (promise (pop_cas at) (pop_read at) l (s.promised i)))
        (sym held) left)

-- Each step keeps what holds between steps.
pub step-Moved :
    (s : System) (i : ℕ) (spurious : Bool) (c : Pc)
    → s.pc i ≡ c
    → Small s
    → Inv s
    → After s i c (step spurious s.queue c)
unfolding step commit promise
step-Moved s i spurious (push_load item) here small inv =
    idle-Moved s i (push_load item) (push_seq item s.queue.tail) here inv (omega arith) refl refl
step-Moved s i spurious (push_seq item at) here small inv =
    let d = diff (slot_at s.queue at).seq at in
    let below = stands s i (push_seq item at) here inv in
    idle-Moved s i (push_seq item at) (push_branch item at d) here inv
      (push_branch-Ok s.queue s.items (s.promised i) item at d
        (diff-agree (slot_at s.queue at).seq at (omega (arith, small, inv.shared.below at))
          (omega (arith, small, below)))
        below)
      (push_branch-writes item at d) (push_branch-reads item at d)
step-Moved s i spurious (push_cas item at) here small inv =
    push_cas-Moved s i item at here small inv (s.queue.tail == at && not spurious)
      (λ e. ground (arith, e))
step-Moved s i spurious (push_write item at) here small inv =
    let w = stands s i (push_write item at) here inv in
    own_slot-Moved s i item at (record { seq = (slot_at s.queue at).seq; value = item })
      (push_write item at) (push_publish item at) here inv refl w
      (write-Shared s.queue s.items inv.shared item at w)
      (written-Ok s.queue s.items inv.shared item at w) (λ t e. e) (λ t e. e)
step-Moved s i spurious (push_publish item at) here small inv =
    let (w, value) = stands s i (push_publish item at) here inv in
    let next : add_size at 1 ≡ at + 1 = omega (arith, small, w.drawn) in
    rw next (
      own_slot-Moved s i item at (record { seq = at + 1; value = (slot_at s.queue at).value })
        (push_publish item at) pushed here inv refl w
        (publish-Shared s.queue s.items inv.shared item at w value) tt
        (λ t e. absurd (ground (arith, e))) (λ t e. absurd (ground (arith, e))))
step-Moved s i spurious pushed here small inv = idle-Moved s i pushed pushed here inv tt refl refl
step-Moved s i spurious push_full here small inv =
    idle-Moved s i push_full push_full here inv tt refl refl
step-Moved s i spurious pop_load here small inv =
    idle-Moved s i pop_load (pop_seq s.queue.head) here inv (omega arith) refl refl
step-Moved s i spurious (pop_seq at) here small inv =
    let d = diff (slot_at s.queue at).seq (add_size at 1) in
    let below = stands s i (pop_seq at) here inv in
    let next : add_size at 1 ≡ at + 1 = omega (arith, small, below, inv.shared.count) in
    idle-Moved s i (pop_seq at) (pop_branch at d) here inv
      (pop_branch-Ok s.queue s.items (s.promised i) at d
        (λ e.
          diff-agree (slot_at s.queue at).seq (add_size at 1)
            (omega (arith, small, inv.shared.below at))
            (omega (arith, small, below, next, inv.shared.count)) e
          ∙ next)
        below)
      (pop_branch-writes at d) (pop_branch-reads at d)
step-Moved s i spurious (pop_cas at) here small inv =
    pop_cas-Moved s i at here small inv (s.queue.head == at && not spurious)
      (λ e. ground (arith, e))
step-Moved s i spurious (pop_read at) here small inv =
    let (drawn, seq, given) = stands s i (pop_read at) here inv in
    quiet-Moved s i (pop_read at) (pop_release (slot_at s.queue at).value at) here inv
      (drawn, seq, given) (λ t e. absurd (ground (arith, e))) (λ t e. e)
step-Moved s i spurious (pop_release item at) here small inv =
    let (drawn, seq, given) = stands s i (pop_release item at) here inv in
    let next : add_size at s.queue.capacity ≡ at + s.queue.capacity =
      omega (arith, small, drawn, inv.shared.count) in
    rw next (
      own_read-Moved s i at
        (record { seq = at + s.queue.capacity; value = (slot_at s.queue at).value })
        (pop_release item at) (popped item) here inv refl (drawn, seq)
        (release-Shared s.queue s.items inv.shared at drawn) given refl refl)
step-Moved s i spurious (popped item) here small inv =
    idle-Moved s i (popped item) (popped item) here inv (stands s i (popped item) here inv) refl
      refl
step-Moved s i spurious pop_empty here small inv =
    idle-Moved s i pop_empty pop_empty here inv tt refl refl
