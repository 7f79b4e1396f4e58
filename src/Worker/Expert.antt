-- ===== src/Worker/Expert.antt =====
-- What becomes of the expert options of src/server.c in the tasks of src/worker.c, and of the input
-- size that a result reports.
use ferretptimize.Common.{
  ℕ, ◌≤◌, ◌<◌, ◌≡◌, refl, true, false, not, ◌||◌, [], ◌∷◌, map, if◌then◌else◌, arith,
}
use ferretptimize.Common.Int.{ℤ, pos, negsuc, leb_ℤ}
use ferretptimize.Common.Bytes.{case_eq, str_eq}
use ferretptimize.Ferret.{Job, format_text}
use ferretptimize.Image.{Image, Report, trim}
use ferretptimize.Image.Seed.{crop-original}
use ferretptimize.Server.Options.{
  ExpertOptions, populate_expert_outputs, clamp_int_server, positive_or,
}
use ferretptimize.Worker.{
  EncodeFn, png_encode, png_quant, webp_encode, avif_encode, EncodeTask, is_zero, clamp_int,
  expert_task, expert_tasks_from, build_expert_tasks,
}
use ferretptimize.Worker.Handle.{job_tasks, Environment, fresh_report, prepare}

-- What an encoder is asked for.
abbrev pub asks : EncodeTask → EncodeFn × ℤ
asks t = (t.encode, t.quality)

-- The quality of AVIF that the server puts in the request.
abbrev pub avif_request : ExpertOptions → ℤ
avif_request opts = clamp_int_server opts.avif_quality (pos 0) (pos 63)

-- A clamped quality that cannot be 0 passes the worker's default and its clamp.
clamp_twice :
    (a d : ℤ) (lo hi : ℕ)
    → 0 < lo
    → lo ≤ hi
    → clamp_int
        (if not (is_zero (clamp_int_server a (pos lo) (pos hi)))
          then clamp_int_server a (pos lo) (pos hi)
          else d)
        (pos lo)
        (pos hi)
      ≡ clamp_int_server a (pos lo) (pos hi)
clamp_twice (pos n) d lo hi l h = ground arith
clamp_twice (negsuc n) d lo hi l h = ground arith

clamp_avif :
    (a : ℤ)
    → let request = clamp_int_server a (pos 0) (pos 63) in
      clamp_int (if not (is_zero request) then request else pos 28) (pos 0) (pos 63)
      ≡ (if is_zero request then pos 28 else request)
clamp_avif (pos n) = ground arith
clamp_avif (negsuc n) = ground arith

-- A job of expert options has four tasks: a PNG, a palette PNG, a WebP and an AVIF, each with the
-- quality that the server clamped, but for the AVIF quality 0, which the worker takes for an unset
-- one and replaces by 28.
pub populate-job_tasks :
    (job : Job) (opts : ExpertOptions)
    → map asks (job_tasks (populate_expert_outputs job opts))
      ≡ (png_encode, clamp_int_server (positive_or opts.png_level (pos 6)) (pos 1) (pos 9))
        ∷ (
          png_quant,
          clamp_int_server (positive_or opts.png_quant_colors (pos 128)) (pos 8) (pos 256),
        )
        ∷ (
          webp_encode,
          clamp_int_server (positive_or opts.webp_quality (pos 90)) (pos 10) (pos 100),
        )
        ∷ (avif_encode, if is_zero (avif_request opts) then pos 28 else avif_request opts)
        ∷ []
unfolding job_tasks build_expert_tasks expert_tasks_from expert_task populate_expert_outputs case_eq
    str_eq format_text
populate-job_tasks job opts =
    rw (clamp_twice (positive_or opts.png_level (pos 6)) (pos 6) 1 9 (omega arith) (omega arith)) (
      rw
        (clamp_twice (positive_or opts.png_quant_colors (pos 128)) (pos 128) 8 256 (omega arith)
          (omega arith))
        (rw
          (clamp_twice (positive_or opts.webp_quality (pos 90)) (pos 90) 10 100 (omega arith)
            (omega arith))
          (rw (clamp_avif opts.avif_quality) refl)))

-- When a job asks for a trim and a crop, the trim succeeds and the crop gets as far as looking at the
-- image, the size that is reported as the input's is that of the trimmed image.
pub input_width_is_trimmed :
    (env : Environment) (job : Job) (image small : Image) (r : Report)
    → job.trim_options.enabled ≡ true
    → job.crop_options.enabled ≡ true
    → (leb_ℤ job.crop_options.width (pos 0) || leb_ℤ job.crop_options.height (pos 0)) ≡ false
    → trim env.trim_ok (env.threshold job.trim_options.tolerance) image (fresh_report image)
      ≡ (true, small, r)
    → ((prepare env job image).1.original_width ≡ small.width)
      × ((prepare env job image).1.original_height ≡ small.height)
unfolding prepare
input_width_is_trimmed env job image small r t c proper trimmed = rw t (
    rw c (
      rw trimmed (
        crop-original env.crop_ok small job.crop_options.x job.crop_options.y job.crop_options.width
          job.crop_options.height r proper)))
