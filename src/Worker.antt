-- ===== src/Worker.antt =====
-- src/worker.c: what a worker does with a job. The tasks of a job run in threads of their own, each
-- on its own output; here they run in their order. Decoding, the three encoders of other libraries
-- and the float threshold of the trim are parameters; log lines and times are left out.
pub mod Tasks
pub mod Encode
pub mod Handle
pub mod Finish
pub mod Outcome
pub mod Best
pub mod Expert
mod Tests
use ferretptimize.Common.{
  ℕ, zero, suc, ◌<◌, ◌≡◌, Bool, true, false, not, ◌&&◌, ◌||◌, List, [], ◌∷◌, ◌++◌, Option, none,
  some, ltb, leb, ◌==◌, if◌then◌else◌, take, length, replicate, set,
}
use ferretptimize.Common.Int.{ℤ, pos, negsuc, ltb_ℤ, leb_ℤ}
use ferretptimize.Common.Bytes.{Bytes, codes, case_eq}
use ferretptimize.Ferret.{
  RequestedOutput, format_text, EncodedImage, Job, JobResult, max_outputs, free_result, blank,
}
use ferretptimize.Image.{Image, Report, trim, crop}

-- `fp_compress_code`.
pub data CompressCode : Type 0 where
  compress_ok : CompressCode
  decode_error : CompressCode
  encode_error : CompressCode
  unsupported : CompressCode

-- `fp_clamp_int`.
abbrev pub clamp_int : ℤ → ℤ → ℤ → ℤ
clamp_int value min_val max_val =
    if ltb_ℤ value min_val then min_val else if ltb_ℤ max_val value then max_val else value

abbrev pub is_zero : ℤ → Bool
is_zero a = leb_ℤ a (pos 0) && leb_ℤ (pos 0) a

abbrev pub is_empty : Bytes → Bool
is_empty [] = true
is_empty (b ∷ bs) = false

-- `fp_job_tune_direction`; its callers give a format and a label.
unfoldable pub job_tune_direction : Job → Bytes → Bytes → ℤ
job_tune_direction job format label =
    if is_zero job.tune_direction || is_empty job.tune_format
    then pos 0
    else if not (case_eq job.tune_format format)
    then pos 0
    else if not (is_empty job.tune_label) && not (case_eq job.tune_label label)
    then pos 0
    else job.tune_direction

-- `fp_should_run_task`.
unfoldable pub should_run_task : Job → Bytes → Bytes → Bool
should_run_task job format label =
    if is_empty job.tune_format
    then true
    else if not (case_eq job.tune_format format)
    then false
    else if not (is_empty job.tune_label) && not (case_eq job.tune_label label)
    then false
    else true

-- The values of `fp_encode_fn`.
pub data EncodeFn : Type 0 where
  png_encode : EncodeFn
  png_more : EncodeFn
  png_quant : EncodeFn
  webp_encode : EncodeFn
  avif_encode : EncodeFn

-- What a task needs of `fp_encode_task`; its output is that of its position.
pub record EncodeTask : Type 0 where
  pub encode : EncodeFn
  pub quality : ℤ
  pub label : Bytes
  pub failure_status : ℤ
  pub failure_message : Bytes
  pub tune_direction : ℤ

-- `fp_default_label`.
abbrev pub default_label : RequestedOutput → Bytes → Bytes
default_label req fallback = if not (is_empty req.label) then req.label else fallback

-- The task that `fp_worker_build_expert_tasks` makes of a request, if any.
unfoldable pub expert_task : RequestedOutput → Option EncodeTask
expert_task req =
    let format = format_text req in
    if is_empty format
    then none
    else if case_eq format (codes "png")
    then some (record {
      encode = png_encode;
      quality =
          clamp_int
            (if not (is_zero req.compression_level)
              then req.compression_level
              else if not (is_zero req.quality)
              then req.quality
              else pos 6)
            (pos 1) (pos 9);
      label = default_label req (codes "custom");
      failure_status = negsuc 1;
      failure_message = codes "png_compress_error";
      tune_direction = pos 0;
    })
    else if case_eq format (codes "pngquant") || case_eq req.label (codes "pngquant q80")
    then some (record {
      encode = png_quant;
      quality =
          clamp_int
            (if not (is_zero req.quality)
              then req.quality
              else if not (is_zero req.compression_level)
              then req.compression_level
              else pos 128)
            (pos 8) (pos 256);
      label = default_label req (codes "pngquant");
      failure_status = negsuc 4;
      failure_message = codes "pngquant_error";
      tune_direction = pos 0;
    })
    else if case_eq format (codes "webp")
    then some (record {
      encode = webp_encode;
      quality =
          clamp_int (if not (is_zero req.quality) then req.quality else pos 90) (pos 10) (pos 100);
      label = default_label req (codes "custom");
      failure_status = negsuc 2;
      failure_message = codes "webp_compress_error";
      tune_direction = pos 0;
    })
    else if case_eq format (codes "avif")
    then some (record {
      encode = avif_encode;
      quality =
          clamp_int (if not (is_zero req.quality) then req.quality else pos 28) (pos 0) (pos 63);
      label = default_label req (codes "custom");
      failure_status = negsuc 3;
      failure_message = codes "avif_compress_error";
      tune_direction = pos 0;
    })
    else none

-- The loop of `fp_worker_build_expert_tasks`, after `count` tasks.
unfoldable pub expert_tasks_from : ℕ → List RequestedOutput → List EncodeTask
expert_tasks_from count [] = []
expert_tasks_from count (req ∷ reqs) =
    let same = expert_tasks_from count reqs in
    let more = expert_tasks_from (suc count) reqs in
    elim (expert_task req) [
      | none ↦ same
      | some task ↦ task ∷ (if leb max_outputs (suc count) then [] else more)
    ]

unfoldable pub build_expert_tasks : Job → List EncodeTask
unfolding expert_tasks_from
build_expert_tasks job = expert_tasks_from 0 (take max_outputs job.requested_outputs)

abbrev pub by_tune : ℤ → ℤ → ℤ → ℤ → ℤ
by_tune tune more less plain =
    if ltb_ℤ (pos 0) tune then more else if ltb_ℤ tune (pos 0) then less else plain

abbrev pub when_run : Bool → EncodeTask → List EncodeTask
when_run true task = task ∷ []
when_run false task = []

-- The tasks that `fp_worker_handle_job` makes for a job that asks for no outputs of its own.
abbrev pub png_task : Job → EncodeTask
png_task job =
    let tune = job_tune_direction job (codes "png") (codes "lossless") in
    record {
      encode = if ltb_ℤ (pos 0) tune then png_more else png_encode;
      quality =
          if ltb_ℤ (pos 0) tune
          then pos 0
          else clamp_int (by_tune tune (pos 9) (pos 1) (pos 5)) (pos 1) (pos 9);
      label = codes "lossless";
      failure_status = negsuc 1;
      failure_message = codes "png_compress_error";
      tune_direction = tune;
    }

abbrev pub quant_task : Job → EncodeTask
quant_task job =
    let tune = job_tune_direction job (codes "png") (codes "pngquant q80") in
    record {
      encode = png_quant;
      quality = clamp_int (by_tune tune (pos 96) (pos 192) (pos 128)) (pos 8) (pos 256);
      label = codes "pngquant q80";
      failure_status = negsuc 4;
      failure_message = codes "pngquant_error";
      tune_direction = tune;
    }

abbrev pub webp_task : Job → EncodeTask
webp_task job =
    let tune = job_tune_direction job (codes "webp") (codes "high") in
    record {
      encode = webp_encode;
      quality = clamp_int (by_tune tune (pos 60) (pos 96) (pos 90)) (pos 10) (pos 100);
      label = codes "high";
      failure_status = negsuc 2;
      failure_message = codes "webp_compress_error";
      tune_direction = tune;
    }

abbrev pub avif_task : Job → EncodeTask
avif_task job =
    let tune = job_tune_direction job (codes "avif") (codes "medium") in
    record {
      encode = avif_encode;
      quality = clamp_int (by_tune tune (pos 36) (pos 20) (pos 28)) (pos 0) (pos 63);
      label = codes "medium";
      failure_status = negsuc 3;
      failure_message = codes "avif_compress_error";
      tune_direction = tune;
    }

unfoldable pub standard_tasks : Job → List EncodeTask
standard_tasks job =
    when_run (should_run_task job (codes "png") (codes "lossless")) (png_task job)
    ++ (when_run (should_run_task job (codes "png") (codes "pngquant q80")) (quant_task job)
        ++ (when_run (should_run_task job (codes "webp") (codes "high")) (webp_task job)
            ++ (when_run (should_run_task job (codes "avif") (codes "medium")) (avif_task job))))
