-- ===== src/Queue/Single.antt =====
-- A queue of one slot, which `fp_queue_create` makes for the capacities 0 and 1.
use ferretptimize.Common.{ℕ, zero, suc, ◌≤◌, ◌≡◌, refl, arith, some, none, true, [], ◌∷◌}
use ferretptimize.Queue.{
  Queue, create, fresh_slots, push, run_call, step, push_branch, pop_branch, done, outcome,
  pop_load, pop_seq,
}

-- What two pushes leave behind: the second pointer in the only slot, under the sequence number 2.
abbrev pub overwritten : ℕ → Queue
overwritten b = record {
  capacity = 1;
  slots = record { seq = 2; value = b } ∷ [];
  head = 0;
  tail = 2;
}

-- A pop of the overwritten queue never leaves its loop.
pop_spins :
    (n b : ℕ)
    → (outcome (run_call n (overwritten b) pop_load).1 ≡ none)
      × (outcome (run_call n (overwritten b) (pop_seq 0)).1 ≡ none)
unfolding run_call step pop_branch
pop_spins zero b = (refl, refl)
pop_spins (suc n) b = ((pop_spins n b).1, (pop_spins n b).0)

two_pushes :
    (n a b : ℕ)
    → n ≤ 1
    → ((push (create true true n) a).1 ≡ some (done, 0))
      × (push (push (create true true n) a).0 b ≡ (some (overwritten b), some (done, 0)))
unfolding create push run_call step push_branch fresh_slots
two_pushes zero a b h = (refl, refl)
two_pushes (suc zero) a b h = (refl, refl)
two_pushes (suc (suc n)) a b h = absurd (omega arith)

-- A queue made with capacity 0 or 1 accepts two pointers one after the other, keeps only the
-- second, and a pop that follows runs for any number of steps without returning.
pub single_slot_loses :
    (n a b steps : ℕ)
    → n ≤ 1
    → ((push (create true true n) a).1 ≡ some (done, 0))
      × (push (push (create true true n) a).0 b ≡ (some (overwritten b), some (done, 0)))
      × (outcome (run_call steps (overwritten b) pop_load).1 ≡ none)
single_slot_loses n a b steps h =
    let (one, two) = two_pushes n a b h in (one, two, (pop_spins steps b).0)
