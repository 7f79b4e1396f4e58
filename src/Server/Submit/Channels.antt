-- ===== src/Server/Submit/Channels.antt =====
-- What `fp_submit_job` of src/server.c leaves of its job's progress channel.
use ferretptimize.Common.{
  ℕ, ◌≡◌, ◌≢◌, refl, ◌∙◌, ap, Bool, true, false, List, [], ◌∷◌, ◌++◌, Option, none, some, ◌>>=◌,
  if◌then◌else◌, length, set,
}
use ferretptimize.Common.Int.{ℤ, pos}
use ferretptimize.Common.Bytes.{codes}
use ferretptimize.Ferret.{Job}
use ferretptimize.Progress.{
  Event, Channel, Registry, channel_push, close, register, registry_index, release, update, find,
}
use ferretptimize.Progress.Events.{push_all, push_all-open}
use ferretptimize.Progress.Probing.{
  Entries, LacksJob, fresh_channel, registered, first_free, free_probe-free, register-ok,
  find-registered,
}
use ferretptimize.Progress.Lifetime.{
  Heap, forget-set, with_last, update-last, retain-last, release-two, release-one,
}
use ferretptimize.Server.Submit.{Surroundings, emit_status, end_channel, status_label, submit_job}

abbrev pub channel : ℕ → List Event → ℤ → Bool → Channel
channel job_id events ref_count closed = record {
  job_id = job_id;
  events = events;
  ref_count = ref_count;
  closed = closed;
}

-- The event of a status, if there is one, at the end.
abbrev pub and_then : List Event → Option Event → List Event
and_then es none = es
and_then es (some e) = es ++ (e ∷ [])

module _ (h : Heap) (entries : Entries) (job_id : ℕ) (es : List Event) where
  emit_status-last :
      (n : ℤ) (e : Option Event)
      → emit_status (with_last h entries (some (channel job_id es n false))) (length h) e
        ≡ some (with_last h entries (some (channel job_id (and_then es e) n false)))
  unfolding emit_status channel_push
  emit_status-last n none = refl
  emit_status-last n (some e) =
      update-last h entries (channel job_id es n false) (λ c. channel_push c e)

  -- With two references left one remains, and the channel stays, closed.
  end_channel-two :
      (e : Option Event)
      → end_channel (with_last h entries (some (channel job_id es (pos 2) false))) (length h) e
        ≡ some (with_last h entries (some (channel job_id (and_then es e) (pos 1) true)))
  unfolding end_channel close
  end_channel-two e = rw (emit_status-last (pos 2) e) (
      rw (update-last h entries (channel job_id (and_then es e) (pos 2) false) close)
        (release-two h entries (channel job_id (and_then es e) (pos 2) true)))

  -- With one reference left the channel is freed and its entry forgotten.
  end_channel-one :
      (e : Option Event)
      → end_channel (with_last h entries (some (channel job_id es (pos 1) false))) (length h) e
        ≡ release
            (with_last h entries (some (channel job_id (and_then es e) (pos 1) true)))
            (length h)
  unfolding end_channel close
  end_channel-one e =
      rw (emit_status-last (pos 1) e)
        (rw (update-last h entries (channel job_id (and_then es e) (pos 1) false) close) refl)

-- What a worker does with the channel: it emits its outputs and releases its reference.
abbrev pub worker_part : List Event → Registry → ℕ → Option Registry
worker_part es r address = update r address (λ c. push_all c es) >>= λ t. release t address

module _ (s : Surroundings) (r : Registry) (job : Job) (idx : ℕ) where
  abbrev pub busy_event : Option Event
  busy_event = s.status_event (codes "error") (codes "server_busy")

  -- The registry once the call has its two references.
  abbrev pub started : Registry
  started =
      with_last r.heap (set r.entries idx (some (job.id, length r.heap)))
        (some (channel job.id [] (pos 2) false))

  start_submit :
      job.id ≢ 0
      → first_free r job.id ≡ some idx
      → s.memory_ok ≡ true
      → submit_job s r job ≡ (
          if s.pushed
          then (s.meanwhile started (length r.heap) >>= λ r3.
              end_channel r3
                (length r.heap)
                (s.status_event (status_label s.result.status) s.result.message)
              >>= λ r4. some (some s.result, none, r4))
          else (end_channel started (length r.heap) busy_event >>= λ r4. some (none, some 503, r4)))
  unfolding submit_job
  start_submit nz free memory =
      let registers : register s.memory_ok r job.id
          ≡ (some (length r.heap), registered r job.id idx) =
        ap (λ (b : Bool). register b r job.id) memory ∙ register-ok r job.id nz idx free in
      rw (registers, submit_job)
        (rw registers (
          rw
            (retain-last r.heap (set r.entries idx (some (job.id, length r.heap)))
              (fresh_channel job.id))
            refl))

  -- A job whose channel was made, but for which the queue has no room, is refused with status 503,
  -- and its channel stays: closed, with one of its two references left, and found under the job.
  pub busy_job_keeps_entry :
      job.id ≢ 0
      → LacksJob job.id r.entries
      → first_free r job.id ≡ some idx
      → s.memory_ok ≡ true
      → s.pushed ≡ false
      → let after =
          with_last r.heap
            (set r.entries idx (some (job.id, length r.heap)))
            (some (channel job.id (and_then [] busy_event) (pos 1) true)) in
        (submit_job s r job ≡ some (none, some 503, after))
        × (find after job.id ≡ some (length r.heap))
  unfolding find
  busy_job_keeps_entry nz lacks free memory busy = (
    rw (start_submit nz free memory) (
        rw busy (
          rw
            (end_channel-two r.heap (set r.entries idx (some (job.id, length r.heap))) job.id []
              busy_event)
            refl)),
    find-registered r job.id nz idx lacks free,
  )

  -- A job that gets into the queue, and whose worker emits its outputs and releases its reference
  -- before the result arrives, gets its result, and leaves the registry's entries as they were, with
  -- its channel freed.
  pub served_job_frees_channel :
      (es : List Event)
      → job.id ≢ 0
      → LacksJob job.id r.entries
      → first_free r job.id ≡ some idx
      → s.memory_ok ≡ true
      → s.pushed ≡ true
      → s.meanwhile started (length r.heap) ≡ worker_part es started (length r.heap)
      → submit_job s r job ≡ some (some s.result, none, with_last r.heap r.entries none)
  served_job_frees_channel es nz lacks free memory pushed worker =
      let entries = set r.entries idx (some (job.id, length r.heap)) in
      rw (start_submit nz free memory) (
        rw pushed (
          rw worker (
            rw (update-last r.heap entries (channel job.id [] (pos 2) false) (λ c. push_all c es)) (
              rw (push_all-open (channel job.id [] (pos 2) false) es refl) (
                rw (release-two r.heap entries (channel job.id es (pos 2) false)) (
                  rw
                    (end_channel-one r.heap entries job.id es
                      (s.status_event (status_label s.result.status) s.result.message))
                    (rw
                      (release-one r.heap entries (
                        channel job.id
                          (and_then es
                            (s.status_event (status_label s.result.status) s.result.message))
                          (pos 1) true))
                      (rw
                        (forget-set r.entries idx job.id (length r.heap) lacks (
                          free_probe-free r.entries (length r.entries)
                            (registry_index (length r.entries) job.id) 0 (length r.entries) idx
                            free))
                        refl))))))))
