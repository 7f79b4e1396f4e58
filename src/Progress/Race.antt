-- ===== src/Progress/Race.antt =====
-- The gap in `fp_progress_acquire` of src/progress.c between the lookup and the count.
use ferretptimize.Common.{ℕ, ◌≡◌, ◌≢◌, refl, none, some, ◌>>=◌, length, set}
use ferretptimize.Progress.{
  Registry, registry_index, find, retain, release, looking, counting, acquired, acquire_step,
}
use ferretptimize.Progress.Probing.{
  LacksJob, fresh_channel, registered, first_free, free_probe-free, find-registered,
}
use ferretptimize.Progress.Lifetime.{
  forget-set, with_last, lookup_last, retain-last, release-two, release-one,
}

acquire_step-found :
    (r : Registry) (job_id address : ℕ)
    → find r job_id ≡ some address
    → acquire_step r (looking job_id) ≡ some (r, counting address)
unfolding acquire_step
acquire_step-found r job_id address e = rw (acquire_step, e) refl

acquire_step-counting :
    (r : Registry) (address : ℕ)
    → acquire_step r (counting address)
      ≡ (retain r address >>= λ r'. some (r', acquired (some address)))
unfolding acquire_step
acquire_step-counting r address = refl

module _ (r : Registry) (job_id idx : ℕ) (nz : job_id ≢ 0) where
  freed :
      LacksJob job_id r.entries
      → first_free r job_id ≡ some idx
      → release (registered r job_id idx) (length r.heap) ≡ some (with_last r.heap r.entries none)
  freed lacks free =
      rw
        (release-one r.heap (set r.entries idx (some (job_id, length r.heap)))
          (fresh_channel job_id))
        (rw
          (forget-set r.entries idx job_id (length r.heap) lacks (
            free_probe-free r.entries (length r.entries) (registry_index (length r.entries) job_id)
              0 (length r.entries) idx free))
          refl)

  gone : acquire_step (with_last r.heap r.entries none) (counting (length r.heap)) ≡ none
  unfolding acquire_step retain
  gone = rw (lookup_last r.heap none) refl

  -- `fp_progress_acquire` looks up a channel with one reference; when the release of that reference
  -- by another thread runs before the call's next step, that step counts in a freed channel. When
  -- it runs after that step, the registry is as before the call: the channel is kept, with one
  -- reference.
  pub acquire_races :
      LacksJob job_id r.entries
      → first_free r job_id ≡ some idx
      → let s = registered r job_id idx in
        let address = length r.heap in
        (acquire_step s (looking job_id) ≡ some (s, counting address))
        × ((release s address >>= λ t. acquire_step t (counting address)) ≡ none)
        × ((acquire_step s (counting address) >>= λ t. release t.0 address) ≡ some s)
  acquire_races lacks free = (
    acquire_step-found (registered r job_id idx) job_id (length r.heap)
        (find-registered r job_id nz idx lacks free),
    rw (freed lacks free) gone,
    rw (acquire_step-counting (registered r job_id idx) (length r.heap)) (
        rw
          (retain-last r.heap (set r.entries idx (some (job_id, length r.heap)))
            (fresh_channel job_id))
          (release-two r.heap (set r.entries idx (some (job_id, length r.heap)))
            (fresh_channel job_id))),
  )
