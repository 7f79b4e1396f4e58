-- ===== src/Progress/Tests.antt =====
-- A channel and a registry of two entries, and the theorems there.
use ferretptimize.Common.{◌≡◌, refl, arith, true, false, [], ◌∷◌, none, some, ◌>>=◌}
use ferretptimize.Common.Bytes.{codes}
use ferretptimize.Progress.{
  Event, free_probe, release, looking, counting, acquire_step, output_event, status_event, Channel,
  next_event, Registry,
}
use ferretptimize.Progress.Race.{acquire_races}
use ferretptimize.Progress.Probing.{fresh_channel, registered, first_free}

abbrev first : Event
first = record { type = output_event; event_name = codes "result"; payload = codes "1" }

abbrev second : Event
second = record { type = status_event; event_name = codes "status"; payload = codes "2" }

abbrev ended : Channel
ended = record (fresh_channel 5) { closed = true }

ends : next_event ended ≡ some (none, false, ended)
unfolding next_event
ends = refl

-- Two entries, the second of them free; job 4 probes the first one first.
abbrev registry : Registry
registry = record { heap = some (fresh_channel 2) ∷ []; entries = some (2, 0) ∷ none ∷ [] }

first_free-registry : first_free registry 4 ≡ some 1
unfolding free_probe
first_free-registry = refl

acquire_races_example :
    let s = registered registry 4 1 in
    (acquire_step s (looking 4) ≡ some (s, counting 1))
    × ((release s 1 >>= λ t. acquire_step t (counting 1)) ≡ none)
    × ((acquire_step s (counting 1) >>= λ t. release t.0 1) ≡ some s)
acquire_races_example =
    acquire_races registry 4 1 (omega arith) (omega arith, tt) first_free-registry
