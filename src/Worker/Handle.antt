-- ===== src/Worker/Handle.antt =====
-- src/worker.c: `fp_worker_handle_job`.
use ferretptimize.Common.{
  ℕ, Bool, false, not, ◌&&◌, List, [], ◌∷◌, Option, none, some, ltb, ◌==◌, if◌then◌else◌, length,
  replicate,
}
use ferretptimize.Common.Int.{pos, negsuc}
use ferretptimize.Common.Bytes.{codes}
use ferretptimize.Ferret.{EncodedImage, blank, Job, JobResult, max_outputs, free_result, free_job}
use ferretptimize.Image.{Image, Report, trim, crop}
use ferretptimize.Worker.{CompressCode, EncodeTask, build_expert_tasks, standard_tasks}
use ferretptimize.Worker.Encode.{Codecs, is_ok, encode_task_run}

-- The choice of the tasks in `fp_worker_handle_job`.
unfoldable pub job_tasks : Job → List EncodeTask
job_tasks job =
    let expert = build_expert_tasks job in
    let standard = standard_tasks job in
    if job.is_expert && ltb 0 (length job.requested_outputs) then expert else standard

-- The first failing task.
unfoldable pub first_failure :
    List EncodeTask → List (CompressCode × EncodedImage) → Option EncodeTask
first_failure [] ran = none
first_failure (t ∷ ts) [] = none
first_failure (t ∷ ts) ((code, e) ∷ ran) =
    let later = first_failure ts ran in if is_ok code then later else some t

-- The outputs after the tasks.
unfoldable pub written : List (CompressCode × EncodedImage) → List EncodedImage → List EncodedImage
written ran [] = []
written [] (o ∷ os) = o ∷ os
written ((code, e) ∷ ran) (o ∷ os) = e ∷ written ran os

-- The outputs that the tasks pass to `fp_progress_emit_output`.
unfoldable pub emitted_of : List (CompressCode × EncodedImage) → List EncodedImage
emitted_of [] = []
emitted_of ((code, e) ∷ ran) = if is_ok code then e ∷ emitted_of ran else emitted_of ran

-- What `calloc` and the first assignments give.
abbrev pub fresh_result : Job → JobResult
fresh_result job = record {
  id = job.id;
  input_size = job.size;
  outputs = replicate max_outputs blank;
  output_count = 0;
  status = pos 0;
  message = [];
  input_width = 0;
  input_height = 0;
  output_width = 0;
  output_height = 0;
  trim_applied = false;
  crop_applied = false;
}

-- Which allocations of the call succeed, and the alpha threshold that `fp_trim_image` computes of
-- the job's tolerance, which stands as 0.01 when it is not positive.
pub record Environment : Type 0 where
  pub result_ok : Bool
  pub trim_ok : Bool
  pub crop_ok : Bool
  pub threshold : ℕ → ℕ

-- The result, none for NULL; the outputs passed to `fp_progress_emit_output`, in the order of their
-- tasks; how often the progress channel is released.
pub record Handled : Type 0 where
  pub result : Option JobResult
  pub emitted : List EncodedImage
  pub releases : ℕ

-- The report that the call starts with.
abbrev pub fresh_report : Image → Report
fresh_report image = record {
  original_width = image.width;
  original_height = image.height;
  final_width = 0;
  final_height = 0;
  trim_applied = false;
  crop_applied = false;
}

module _ (env : Environment) where
  -- The trim and the crop that the job asks for.
  unfoldable pub prepare : Job → Image → Image × Report
  prepare job image =
      let t = job.trim_options in
      let c = job.crop_options in
      let (done, small, trim_report) =
        trim env.trim_ok (env.threshold t.tolerance) image (fresh_report image) in
      let trimmed : Image × Report =
        if t.enabled then (small, trim_report) else (image, fresh_report image) in
      let (done', cut, crop_report) =
        crop env.crop_ok trimmed.0 c.x c.y c.width c.height trimmed.1 in
      if c.enabled then (cut, crop_report) else trimmed

module _ (codecs : Codecs) where
  unfoldable pub run_tasks : Image → List EncodeTask → List (CompressCode × EncodedImage)
  run_tasks image [] = []
  run_tasks image (t ∷ ts) = encode_task_run codecs image t blank ∷ run_tasks image ts

  module _ (env : Environment) where
    -- What follows once the image is decoded.
    unfoldable pub finish : Job → Image → JobResult × List EncodedImage
    finish job image =
        let (final, report) = prepare env job image in
        let tasks = job_tasks job in
        let ran = run_tasks final tasks in
        let sized : JobResult = record (fresh_result job) {
          input_width = report.original_width;
          input_height = report.original_height;
          output_width = final.width;
          output_height = final.height;
          trim_applied = report.trim_applied;
          crop_applied = report.crop_applied;
        } in
        let encoded : JobResult = record sized { outputs = written ran sized.outputs } in
        let emitted = if job.progress then emitted_of ran else [] in
        if length tasks == 0
        then (record sized { status = negsuc 5; message = codes "unknown_tune_target" }, [])
        else elim (first_failure tasks ran) [
          | some t ↦ (
            record (free_result
                (record encoded { status = t.failure_status; message = t.failure_message })) {
                  output_count = 0;
                },
            emitted,
          )
          | none ↦ (
            record encoded { output_count = length tasks; status = pos 0; message = codes "ok" },
            emitted,
          )
        ]

    -- `fp_worker_handle_job` on a job.
    unfoldable pub handle_job : Job → Handled
    handle_job job =
        let (code, image) = codecs.decode_png job.content job.size in
        let releases = (free_job job).1 in
        if not env.result_ok
        then record { result = none; emitted = []; releases = releases }
        else if not (is_ok code)
        then record {
          result =
              some
                (record (fresh_result job) { status = negsuc 0; message = codes "decode_error" });
          emitted = [];
          releases = releases;
        }
        else let (result, emitted) = finish job image in
          record { result = some result; emitted = emitted; releases = releases }
