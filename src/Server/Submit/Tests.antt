-- ===== src/Server/Submit/Tests.antt =====
-- A job on a registry of two entries, and the theorems there.
use ferretptimize.Common.{◌≡◌, refl, arith, Bool, true, false, [], ◌∷◌, Option, none, some}
use ferretptimize.Common.Int.{pos, negsuc}
use ferretptimize.Common.Bytes.{Bytes, codes}
use ferretptimize.Ferret.{Job, JobResult}
use ferretptimize.Progress.{Event, status_event, Registry, free_probe, find}
use ferretptimize.Progress.Probing.{first_free}
use ferretptimize.Progress.Lifetime.{with_last}
use ferretptimize.Server.Submit.{Surroundings, submit_job}
use ferretptimize.Server.Submit.Channels.{
  channel, worker_part, busy_job_keeps_entry, served_job_frees_channel,
}

abbrev job : Job
job = record {
  id = 4;
  filename = codes "a.png";
  content = some (1 ∷ []);
  size = 1;
  progress = true;
  tune_format = [];
  tune_label = [];
  tune_direction = pos 0;
  is_expert = false;
  requested_outputs = [];
  trim_options = record { enabled = false; tolerance = 0 };
  crop_options = record { enabled = false; x = pos 0; y = pos 0; width = pos 0; height = pos 0 };
}

abbrev result : JobResult
result = record {
  id = 4;
  input_size = 1;
  outputs = [];
  output_count = 0;
  status = negsuc 0;
  message = codes "decode_error";
  input_width = 0;
  input_height = 0;
  output_width = 0;
  output_height = 0;
  trim_applied = false;
  crop_applied = false;
}

abbrev status_of : Bytes → Bytes → Option Event
status_of status message =
    some (record { type = status_event; event_name = status; payload = message })

abbrev surroundings : Bool → Surroundings
surroundings pushed = record {
  memory_ok = true;
  pushed = pushed;
  status_event = status_of;
  meanwhile = worker_part [];
  result = result;
}

abbrev registry : Registry
registry = record { heap = []; entries = none ∷ none ∷ [] }

first_free-registry : first_free registry 4 ≡ some 0
unfolding free_probe
first_free-registry = refl

busy_job_keeps_entry_example :
    let after = with_last [] (some (4, 0) ∷ none ∷ []) (
      some (
        channel 4
          (record { type = status_event; event_name = codes "error"; payload = codes "server_busy" }
            ∷ [])
          (pos 1)
          true)) in
    (submit_job (surroundings false) registry job ≡ some (none, some 503, after))
    × (find after 4 ≡ some 0)
busy_job_keeps_entry_example =
    busy_job_keeps_entry (surroundings false) registry job 0 (omega arith) tt first_free-registry
      refl refl

served_job_frees_channel_example :
    submit_job (surroundings true) registry job
    ≡ some (some result, none, with_last [] (none ∷ none ∷ []) none)
served_job_frees_channel_example =
    served_job_frees_channel (surroundings true) registry job 0 [] (omega arith) tt
      first_free-registry refl refl refl
