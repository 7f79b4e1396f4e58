-- ===== src/Server/Results.antt =====
-- How a request thread gets the result of its job: `g_result_cache`, `fp_result_cache_take`,
-- `fp_result_cache_store` and `fp_wait_for_result` of src/server.c. The result queue is a FIFO, as
-- the queue of src/queue.c is for its clients.
pub mod Cache
pub mod Waiting
mod Tests
use ferretptimize.Common.{
  ℕ, suc, zero, Bool, true, false, List, [], ◌∷◌, ◌++◌, Option, none, some, ◌==◌, if◌then◌else◌,
  replicate,
}
use ferretptimize.Ferret.{JobResult}

abbrev pub cache_max : ℕ
cache_max = 16

abbrev pub Cache : Type 0
Cache = List (Option JobResult)

abbrev pub empty_cache : Cache
empty_cache = replicate cache_max none

-- `fp_result_cache_take`: the first result of the job, and the cache without it.
unfoldable pub take : Cache → ℕ → Option JobResult × Cache
take [] id = (none, [])
take (none ∷ slots) id = let (found, rest) = take slots id in (found, none ∷ rest)
take (some r ∷ slots) id =
    let (found, rest) = take slots id in
    if r.id == id then (some r, none ∷ slots) else (found, some r ∷ rest)

-- `fp_result_cache_store`: the result goes into the first free slot; the Boolean says whether it
-- found one, and is freed otherwise.
unfoldable pub store : Cache → JobResult → Bool × Cache
store [] r = (false, [])
store (none ∷ slots) r = (true, some r ∷ slots)
store (some s ∷ slots) r = let (kept, rest) = store slots r in (kept, some s ∷ rest)

-- What the threads share.
pub record Shared : Type 0 where
  pub queue : List JobResult
  pub cache : Cache

-- The start of `fp_wait_for_result`, before its loop.
pub wait_start : Shared → ℕ → Option JobResult × Shared
wait_start s id = let (found, cache) = take s.cache id in (found, record s { cache = cache })

-- One round of its loop.
unfoldable pub wait_round : Shared → ℕ → Option JobResult × Shared
wait_round s id = elim s.queue [
  | [] ↦ (none, s)
  | r ∷ rest ↦
      if r.id == id
      then (some r, record s { queue = rest })
      else (none, record { queue = rest; cache = (store s.cache r).1 })
]

-- `fp_wait_for_result` with at most `n` rounds of its loop, and no other thread in between.
unfoldable pub wait_loop : ℕ → Shared → ℕ → Option JobResult × Shared
wait_loop zero s id = (none, s)
wait_loop (suc n) s id =
    let (found, s') = wait_round s id in
    let rest = wait_loop n s' id in elim found [ some r ↦ (some r, s') | none ↦ rest ]

unfoldable pub wait_for_result : ℕ → Shared → ℕ → Option JobResult × Shared
unfolding wait_start
wait_for_result n s id =
    let (found, s') = wait_start s id in
    let rest = wait_loop n s' id in elim found [ some r ↦ (some r, s') | none ↦ rest ]

-- What happens to the shared state while a thread waits: a worker pushes a result, or a thread that
-- waits for the job `id` starts or makes a round.
pub data Event : Type 0 where
  finished : JobResult → Event
  starts : (id : ℕ) → Event
  rounds : (id : ℕ) → Event

-- What the event's thread gets, and the state after.
unfoldable pub happen : Shared → Event → Option JobResult × Shared
unfolding wait_start
happen s (finished r) = (none, record s { queue = s.queue ++ (r ∷ []) })
happen s (starts id) = wait_start s id
happen s (rounds id) = wait_round s id

unfoldable pub happen_all : Shared → List Event → Shared
happen_all s [] = s
happen_all s (e ∷ es) = happen_all (happen s e).1 es
