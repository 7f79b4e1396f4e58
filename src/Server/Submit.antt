-- ===== src/Server/Submit.antt =====
-- How a request of src/server.c submits its job: `fp_submit_job`, on the registry of src/progress.c.
pub mod Channels
mod Tests
use ferretptimize.Common.{
  ℕ, Bool, true, false, ◌&&◌, List, [], ◌∷◌, Option, none, some, ◌>>=◌, if◌then◌else◌,
}
use ferretptimize.Common.Int.{ℤ, pos, leb_ℤ}
use ferretptimize.Common.Bytes.{Bytes, codes}
use ferretptimize.Ferret.{Job, JobResult}
use ferretptimize.Progress.{Event, Registry, channel_push, close, register, retain, release, update}

-- What the call depends on: whether there is memory for the channel, and whether one of its 5000
-- attempts finds room in the job queue; the event that `fp_progress_emit_status` makes of a status
-- and a message, none when it makes none; what the worker does with the registry until the result is
-- there; the result that `fp_wait_for_result` gives, which never is NULL.
pub record Surroundings : Type 0 where
  pub memory_ok : Bool
  pub pushed : Bool
  pub status_event : Bytes → Bytes → Option Event
  pub meanwhile : Registry → ℕ → Option Registry
  pub result : JobResult

-- `fp_progress_emit`, on the event that `fp_progress_emit_status` made.
unfoldable pub emit_status : Registry → ℕ → Option Event → Option Registry
emit_status r address none = some r
emit_status r address (some e) = update r address (λ c. channel_push c e)

-- The last status, the close and the release.
unfoldable pub end_channel : Registry → ℕ → Option Event → Option Registry
end_channel r address e =
    emit_status r address e >>= λ s. update s address close >>= λ t. release t address

abbrev pub status_label : ℤ → Bytes
status_label status =
    if leb_ℤ status (pos 0) && leb_ℤ (pos 0) status then codes "ok" else codes "error"

-- `fp_submit_job`: the result, none for NULL; `*http_status`, none where it is left alone; and the
-- registry after. It is none when the call touches a freed channel.
unfoldable pub submit_job :
    Surroundings → Registry → Job → Option (Option JobResult × Option ℕ × Registry)
submit_job s r job =
    let (got, r1) = register s.memory_ok r job.id in
    let result = s.result in
    elim got [
      | none ↦ some (none, some 503, r1)
      | some address ↦ retain r1 address >>= λ r2.
          if s.pushed
          then (s.meanwhile r2 address >>= λ r3.
              end_channel r3 address (s.status_event (status_label result.status) result.message)
              >>= λ r4. some (some result, none, r4))
          else (end_channel r2 address (s.status_event (codes "error") (codes "server_busy"))
              >>= λ r4. some (none, some 503, r4))
    ]
