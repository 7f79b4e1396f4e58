-- ===== src/Queue/Threads/Branches.antt =====
-- What a thread of src/queue.c knows after it has compared a slot's number.
use ferretptimize.Common.{
  ℕ, ◌+◌, ◌^◌, ◌≤◌, ◌<◌, ◌≡◌, inl, inr, true, Option, none, List, arith, Bool-cases,
}
use ferretptimize.Common.Int.{ℤ, pos, ltb_ℤ}
use ferretptimize.Queue.{Queue, slot_at, push_branch, pop_branch, is_zero, diff}
use ferretptimize.Queue.Threads.Invariant.{writes, reads, Ok}

pub push_branch-writes : (item at : ℕ) (d : ℤ) → writes (push_branch item at d) ≡ none
unfolding push_branch
push_branch-writes item at d = ground arith

pub push_branch-reads : (item at : ℕ) (d : ℤ) → reads (push_branch item at d) ≡ none
unfolding push_branch
push_branch-reads item at d = ground arith

pub pop_branch-writes : (at : ℕ) (d : ℤ) → writes (pop_branch at d) ≡ none
unfolding pop_branch
pop_branch-writes at d = ground arith

pub pop_branch-reads : (at : ℕ) (d : ℤ) → reads (pop_branch at d) ≡ none
unfolding pop_branch
pop_branch-reads at d = ground arith

-- Below the sign bit, the signed difference is zero only where the numbers agree.
pub diff-agree : (seq at : ℕ) → seq < 2 ^ 63 → at < 2 ^ 63 → is_zero (diff seq at) ≡ true → seq ≡ at
diff-agree seq at h k e = ground (arith, h, k, e)

pub push_branch-Ok :
    (q : Queue) (items : List ℕ) (promised : Option ℕ) (item at : ℕ) (d : ℤ)
    → (is_zero d ≡ true → (slot_at q at).seq ≡ at)
    → at ≤ q.tail
    → Ok q items promised (push_branch item at d)
unfolding push_branch
push_branch-Ok q items promised item at d agree h = elim (Bool-cases (is_zero d)) [
  | inl ready ↦ rw ready (h, λ e. agree ready)
  | inr other ↦ elim (Bool-cases (ltb_ℤ d (pos 0))) [
    | inl behind ↦ rw (other, behind) tt
    | inr ahead ↦ rw (other, ahead) tt
  ]
]

pub pop_branch-Ok :
    (q : Queue) (items : List ℕ) (promised : Option ℕ) (at : ℕ) (d : ℤ)
    → (is_zero d ≡ true → (slot_at q at).seq ≡ at + 1)
    → at ≤ q.head
    → Ok q items promised (pop_branch at d)
unfolding pop_branch
pop_branch-Ok q items promised at d agree h = elim (Bool-cases (is_zero d)) [
  | inl ready ↦ rw ready (h, λ e. agree ready)
  | inr other ↦ elim (Bool-cases (ltb_ℤ d (pos 0))) [
    | inl behind ↦ rw (other, behind) tt
    | inr ahead ↦ rw (other, ahead) tt
  ]
]
