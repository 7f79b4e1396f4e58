-- ===== src/Queue/Threads/Tests.antt =====
-- Two threads on one queue, at concrete steps.
use ferretptimize.Common.{ℕ, ◌+◌, ◌^◌, ◌<◌, ◌≤◌, ◌≡◌, refl, false, List, [], ◌∷◌, length, arith}
use ferretptimize.Queue.{
  Queue, create, fresh_slots, step, push_branch, pop_branch, push_load, pop_load, popped, pop_empty,
}
use ferretptimize.Queue.Threads.{
  System, act, begin, Reach, start, later, acts, pushes, pops, started,
}
use ferretptimize.Queue.Threads.Linear.{ArePromised, popped-promised}
use ferretptimize.Queue.Fifo.{fresh}

abbrev play : List ℕ → System → System
play [] s = s
play (i ∷ is) s = play is (act s i false)

abbrev AllSmall : List ℕ → System → Type 0
AllSmall [] s = Unit {0}
AllSmall (i ∷ is) s = (s.queue.tail + s.queue.capacity + 1 < 2 ^ 63) × AllSmall is (act s i false)

play-Reach :
    {q : Queue} (is : List ℕ) (s : System) → Reach q s → AllSmall is s → Reach q (play is s)
play-Reach [] s r small = r
play-Reach (i ∷ is) s r (small, rest) =
    play-Reach is (act s i false) (later r (acts i false small)) rest

-- Thread 0 pushes 7, thread 1 pops.
abbrev both_called : System
both_called = begin (begin (started (fresh 2)) 0 (push_load 7)) 1 pop_load

abbrev schedule : List ℕ
schedule = 1 ∷ 0 ∷ 0 ∷ 0 ∷ 0 ∷ 0 ∷ 1 ∷ 1 ∷ 1 ∷ 1 ∷ []

popped_by_one : (play schedule both_called).pc 1 ≡ popped 7
unfolding act begin step push_branch pop_branch fresh_slots
popped_by_one = refl

-- The slot of a ticket that is not published is not taken.
empty_before_publish : (play (1 ∷ 0 ∷ 0 ∷ 0 ∷ 0 ∷ 1 ∷ []) both_called).pc 1 ≡ pop_empty
unfolding act begin step push_branch pop_branch fresh_slots
empty_before_publish = refl

schedule-AllSmall : AllSmall schedule both_called
unfolding act begin step push_branch pop_branch fresh_slots
schedule-AllSmall = ground arith

both_called-Reach : Reach (fresh 2) both_called
unfolding begin
both_called-Reach = later (later start (pushes 0 7 refl)) (pops 1 refl)

popped-promised_example :
    (length (play schedule both_called).items ≤ 2) × ArePromised (play schedule both_called)
unfolding create
popped-promised_example =
    popped-promised 2 (fresh 2) (play schedule both_called) (omega arith) refl
      (play-Reach schedule both_called both_called-Reach schedule-AllSmall)
