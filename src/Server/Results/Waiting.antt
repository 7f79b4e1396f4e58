-- ===== src/Server/Results/Waiting.antt =====
-- When a waiting thread gets its result, and when it never does.
use ferretptimize.Common.{
  ℕ, suc, ◌≡◌, ◌≢◌, refl, List, [], ◌∷◌, ◌++◌, none, some, ◌==◌, All, All-append, arith, length,
  Bool-cases, inl, inr,
}
use ferretptimize.Ferret.{JobResult}
use ferretptimize.Server.Results.{
  Cache, store, Shared, wait_start, wait_round, wait_loop, wait_for_result, Event, finished, starts,
  rounds, happen, happen_all,
}
use ferretptimize.Server.Results.Cache.{Lacks, take-Lacks}

abbrev pub NoResult : ℕ → List JobResult → Type 0
NoResult id rs = All (λ (r : JobResult). r.id ≢ id) rs

-- The events that do not push a result of the job.
abbrev pub IsOther : ℕ → Event → Type 0
IsOther id (finished r) = r.id ≢ id
IsOther id _ = Unit

happen-NoResult :
    (s : Shared) (e : Event) (id : ℕ)
    → NoResult id s.queue
    → IsOther id e
    → NoResult id (happen s e).1.queue
unfolding happen wait_round
happen-NoResult s (finished r) id h other = All-append _ s.queue (r ∷ []) h (other, tt)
happen-NoResult s (starts id') id h other = h
happen-NoResult s (rounds id') id h other = go s.queue s.cache h
  where
    go :
        (q : List JobResult) (c : Cache)
        → NoResult id q
        → NoResult id (wait_round (record { queue = q; cache = c }) id').1.queue
    go [] c k = tt
    go (r ∷ rest) c k = elim (Bool-cases (r.id == id')) [ inl e ↦ rw e k.1 | inr e ↦ rw e k.1 ]

happen_all-NoResult :
    (s : Shared) (es : List Event) (id : ℕ)
    → NoResult id s.queue
    → All (IsOther id) es
    → NoResult id (happen_all s es).queue
unfolding happen_all
happen_all-NoResult s [] id h others = h
happen_all-NoResult s (e ∷ es) id h others =
    happen_all-NoResult (happen s e).1 es id (happen-NoResult s e id h others.0) others.1

wait_round-NoResult : (s : Shared) (id : ℕ) → NoResult id s.queue → (wait_round s id).0 ≡ none
unfolding wait_round
wait_round-NoResult s id h = go s.queue s.cache h
  where
    go :
        (q : List JobResult) (c : Cache)
        → NoResult id q
        → (wait_round (record { queue = q; cache = c }) id).0 ≡ none
    go [] c k = refl
    go (r ∷ rest) c k = ground (arith, k.0)

-- A round of the waiter for the job `b` that finds another job's result, the only one of that job in
-- the queue, gives `b` nothing and takes the result out of the queue. From then on, whatever the
-- threads do, no round of the waiter for that job gives it the result, unless a worker finishes the
-- same job again.
pub stolen :
    (s : Shared) (r : JobResult) (rest : List JobResult) (b : ℕ) (es : List Event)
    → s.queue ≡ r ∷ rest
    → r.id ≢ b
    → NoResult r.id rest
    → All (IsOther r.id) es
    → ((happen s (rounds b)).0 ≡ none)
      × ((happen s (rounds b)).1.cache ≡ (store s.cache r).1)
      × ((wait_round (happen_all (happen s (rounds b)).1 es) r.id).0 ≡ none)
unfolding happen wait_round
stolen s r rest b es e ne h others = (
  ground (arith, e, ne),
  ground (arith, e, ne),
  wait_round-NoResult _ r.id (happen_all-NoResult _ es r.id (rw left h) others),
)
  where
    left : (wait_round s b).1.queue ≡ rest
    left = ground (arith, e, ne)

wait_loop-finds :
    (before after : List JobResult) (r : JobResult) (c : Cache)
    → NoResult r.id before
    → let (found, s) =
        wait_loop
          (suc (length before))
          (record { queue = before ++ (r ∷ after); cache = c })
          r.id in
      (found ≡ some r) × (s.queue ≡ after)
unfolding wait_loop wait_round
wait_loop-finds [] after r c h = ground arith
wait_loop-finds (b ∷ before) after r c h =
    ground (arith, h.0, wait_loop-finds before after r (store c b).1 h.1)

-- With no other thread in between, the thread that waits for the result that stands `n` places behind
-- the front of the queue, the first of its job, gets it within n + 1 rounds when its cache has none,
-- and the results behind it stay in the queue in their order.
pub wait-finds :
    (before after : List JobResult) (r : JobResult) (c : Cache)
    → Lacks r.id c
    → NoResult r.id before
    → let (found, s) =
        wait_for_result
          (suc (length before))
          (record { queue = before ++ (r ∷ after); cache = c })
          r.id in
      (found ≡ some r) × (s.queue ≡ after)
unfolding wait_for_result wait_start
wait-finds before after r c lacks none_before =
    ground (arith, take-Lacks c r.id lacks, wait_loop-finds before after r c none_before)
