-- ===== src/Queue/Tests.antt =====
-- Runs of the queue, and its theorems at concrete inputs.
use ferretptimize.Common.{◌≡◌, refl, arith, some, none, true, [], ◌∷◌, List}
use ferretptimize.Queue.{
  create, fresh_slots, push, pop, run_call, step, push_branch, pop_branch, pop_load, outcome, done,
  eagain,
}
use ferretptimize.Queue.Fifo.{Call, put, take, Reply, run, fifo_run, run-create}
use ferretptimize.Queue.Single.{overwritten, single_slot_loses}

-- Full at two, wraps round, empty at the end.
abbrev script : List Call
script = put 7 ∷ put 8 ∷ put 9 ∷ take ∷ put 9 ∷ take ∷ take ∷ take ∷ []

abbrev replies : List Reply
replies =
    some (done, 0)
    ∷ some (done, 0)
    ∷ some (eagain, 0)
    ∷ some (done, 7)
    ∷ some (done, 0)
    ∷ some (done, 8)
    ∷ some (done, 9)
    ∷ some (eagain, 0)
    ∷ []

run-script : run (create true true 2) script ≡ replies
unfolding run create fresh_slots push pop run_call step push_branch pop_branch
run-script = refl

run-create_example : run (create true true 2) script ≡ fifo_run 2 [] script
run-create_example = run-create 2 script (omega arith) (omega arith)

single_slot_loses_example :
    ((push (create true true 1) 7).1 ≡ some (done, 0))
    × (push (push (create true true 1) 7).0 8 ≡ (some (overwritten 8), some (done, 0)))
    × (outcome (run_call 100 (overwritten 8) pop_load).1 ≡ none)
single_slot_loses_example = single_slot_loses 1 7 8 100 (omega arith)
