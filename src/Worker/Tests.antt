-- ===== src/Worker/Tests.antt =====
-- Small jobs, and the worker's theorems at them.
use ferretptimize.Common.{◌≡◌, ◌⊎◌, refl, true, false, [], ◌∷◌, map, none, some, get_elem?}
use ferretptimize.Common.Int.{pos, negsuc}
use ferretptimize.Common.Bytes.{codes, case_eq, str_eq}
use ferretptimize.Ferret.{
  RequestedOutput, format_text, EncodedImage, blank, Job, JobResult, free_result,
}
use ferretptimize.Image.{
  Image, Report, trim, trim_box, scan_rows, scan_row, crop, cut_out, copy_rows, seed_report,
}
use ferretptimize.Server.Options.{default_expert_options, populate_expert_outputs}
use ferretptimize.Worker.{
  compress_ok, encode_error, png_encode, png_quant, webp_encode, avif_encode, quant_task, webp_task,
  standard_tasks, should_run_task, job_tune_direction,
}
use ferretptimize.Worker.Encode.{Codecs, encode_task_run, run_encode}
use ferretptimize.Worker.Handle.{
  job_tasks, first_failure, run_tasks, Environment, fresh_report, prepare, finish, handle_job,
}
use ferretptimize.Worker.Tasks.{AreOk, job_tasks-AreOk}
use ferretptimize.Worker.Finish.{Finished, output_of}
use ferretptimize.Worker.Outcome.{handle_job_lem, failed_job_leaks}
use ferretptimize.Worker.Expert.{asks, populate-job_tasks}

abbrev plain_job : Job
plain_job = record {
  id = 7;
  filename = codes "a.png";
  content = some (1 ∷ []);
  size = 1;
  progress = true;
  tune_format = [];
  tune_label = [];
  tune_direction = pos 0;
  is_expert = false;
  requested_outputs = [];
  trim_options = record { enabled = false; tolerance = 0 };
  crop_options = record { enabled = false; x = pos 0; y = pos 0; width = pos 0; height = pos 0 };
}

abbrev tuned_job : Job
tuned_job = record plain_job {
  tune_format = codes "PNG";
  tune_label = codes "lossless";
  tune_direction = negsuc 0;
}

-- An image of two pixels; the second one is opaque.
abbrev dots : Image
dots = record { pixels = 1 ∷ 1 ∷ 1 ∷ 0 ∷ 2 ∷ 2 ∷ 2 ∷ 255 ∷ []; width = 2; height = 1 }

-- Encoders that write one byte, with a WebP encoder that fails.
abbrev one_byte : EncodedImage
one_byte = record blank { content = some (9 ∷ []); size = 1 }

abbrev codecs : Codecs
codecs = record {
  decode_png = λ bytes size. (compress_ok, dots);
  compress_png_level = λ image q label output. (compress_ok, one_byte);
  compress_png_quantized = λ image q label output. (compress_ok, one_byte);
  compress_webp = λ image q output. (encode_error, output);
  compress_avif = λ image q output. (compress_ok, one_byte);
}

abbrev env : Environment
env = record { result_ok = true; trim_ok = true; crop_ok = true; threshold = λ t. 100 }

job_tasks-AreOk_example : AreOk 0 (job_tasks plain_job)
job_tasks-AreOk_example = job_tasks-AreOk plain_job

populate-job_tasks_example :
    map asks (
      job_tasks (
        populate_expert_outputs plain_job (record default_expert_options { avif_quality = pos 0 })))
    ≡ (png_encode, pos 6)
      ∷ (png_quant, pos 128)
      ∷ (webp_encode, pos 90)
      ∷ (avif_encode, pos 28)
      ∷ []
populate-job_tasks_example =
    populate-job_tasks plain_job (record default_expert_options { avif_quality = pos 0 })

-- The format of a palette PNG, read on into its label, is not the name that the worker looks for.
abbrev palette_request : RequestedOutput
palette_request = record {
  format = codes "pngquant";
  label = codes "pngquant q80";
  quality = pos 128;
  compression_level = pos 0;
}

format_is_missed : case_eq (format_text palette_request) (codes "pngquant") ≡ false
unfolding format_text case_eq str_eq
format_is_missed = refl

handle_job_lem_example :
    let handled = handle_job codecs env plain_job in
    (handled.releases ≡ 1)
    × ((true ≡ false) × (handled.result ≡ none)
        ⊎ ((r : JobResult) × (handled.result ≡ some r)
            × (r.id ≡ 7)
            × ((true ≡ false) × (r.status ≡ negsuc 0) × (r.output_count ≡ 0)
                ⊎ (true ≡ true) × Finished codecs env (prepare env plain_job dots).0 plain_job r)))
handle_job_lem_example = handle_job_lem codecs env plain_job

webp_fails :
    first_failure
      (job_tasks plain_job)
      (run_tasks codecs (prepare env plain_job dots).0 (job_tasks plain_job))
    ≡ some (webp_task plain_job)
unfolding first_failure job_tasks run_tasks standard_tasks should_run_task job_tune_direction
    encode_task_run run_encode
webp_fails = refl

second-task : get_elem? (job_tasks plain_job) 1 ≡ some (quant_task plain_job)
unfolding job_tasks standard_tasks should_run_task job_tune_direction
second-task = refl

failed_job_leaks_example :
    let r = (finish codecs env plain_job dots).0 in
    (r.output_count ≡ 0)
    × (get_elem? (free_result r).outputs 1
        ≡ some (output_of codecs (prepare env plain_job dots).0 (quant_task plain_job)))
failed_job_leaks_example =
    failed_job_leaks codecs env plain_job dots (webp_task plain_job) (quant_task plain_job) 1
      webp_fails second-task

abbrev cropping_job : Job
cropping_job = record plain_job {
  trim_options = record { enabled = true; tolerance = 0 };
  crop_options = record { enabled = true; x = pos 0; y = pos 0; width = pos 1; height = pos 1 };
}

abbrev small : Image
small = record { pixels = 2 ∷ 2 ∷ 2 ∷ 255 ∷ []; width = 1; height = 1 }

abbrev trim_report : Report
trim_report = record {
  original_width = 2;
  original_height = 1;
  final_width = 1;
  final_height = 1;
  trim_applied = true;
  crop_applied = true;
}

trim-dots : trim true 100 dots (fresh_report dots) ≡ (true, small, trim_report)
unfolding trim trim_box scan_rows scan_row crop cut_out copy_rows seed_report
trim-dots = refl
