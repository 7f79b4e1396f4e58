-- ===== src/Worker/Encode.antt =====
-- src/worker.c: the encoders that a task calls, and what a task leaves in its output.
use ferretptimize.Common.{
  ℕ, Bool, true, false, not, ◌||◌, List, [], ◌∷◌, map, Option, none, some, ltb, if◌then◌else◌,
}
use ferretptimize.Common.Int.{ℤ, pos, ltb_ℤ, leb_ℤ}
use ferretptimize.Common.Bytes.{Bytes, codes}
use ferretptimize.Ferret.{EncodedImage, blank}
use ferretptimize.Image.{Image}
use ferretptimize.Worker.{
  CompressCode, compress_ok, encode_error, EncodeFn, png_encode, png_more, png_quant, webp_encode,
  avif_encode, EncodeTask,
}

-- The functions of include/compress.h that the worker calls, on libpng, libwebp and libavif. An
-- encoder gets the output before the call and gives the code beside the output after it.
pub record Codecs : Type 0 where
  pub decode_png : Option Bytes → ℕ → CompressCode × Image
  pub compress_png_level : Image → ℤ → Bytes → EncodedImage → CompressCode × EncodedImage
  pub compress_png_quantized : Image → ℤ → Bytes → EncodedImage → CompressCode × EncodedImage
  pub compress_webp : Image → ℤ → EncodedImage → CompressCode × EncodedImage
  pub compress_avif : Image → ℤ → EncodedImage → CompressCode × EncodedImage

abbrev pub is_ok : CompressCode → Bool
is_ok compress_ok = true
is_ok _ = false

abbrev pub has_content : EncodedImage → Bool
has_content e = elim e.content [ none ↦ false | some b ↦ true ]

-- The loop of `fp_worker_png_more` over its candidates, after the best so far.
unfoldable pub pick_best :
    Option EncodedImage → List (CompressCode × EncodedImage) → Option EncodedImage
pick_best best [] = best
pick_best best ((code, e) ∷ rest) =
    let better : Option EncodedImage = elim best [
      | none ↦ some e
      | some b ↦ some (if ltb e.size b.size then e else b)
    ] in
    pick_best (if not (is_ok code) || not (has_content e) then best else better) rest

-- The levels of the three calls at the start of `fp_worker_png_more`.
abbrev pub more_levels : List ℤ
more_levels = pos 9 ∷ pos 7 ∷ pos 6 ∷ []

module _ (codecs : Codecs) where
  -- The candidates of `fp_worker_png_more`.
  abbrev pub candidates : Image → Bytes → List (CompressCode × EncodedImage)
  candidates image label =
      map (λ level. codecs.compress_png_level image level label blank) more_levels

  -- `fp_worker_png_more`.
  unfoldable pub run_png_more : Image → Bytes → EncodedImage → CompressCode × EncodedImage
  run_png_more image label output = elim (pick_best none (candidates image label)) [
    | none ↦ (encode_error, output)
    | some e ↦ (compress_ok, e)
  ]

  -- `task->encode(...)`: the wrappers `fp_worker_png_encode`, `fp_worker_png_quant`,
  -- `fp_worker_webp_encode`, `fp_worker_avif_encode`, and `fp_worker_png_more`.
  unfoldable pub run_encode :
      EncodeFn → Image → ℤ → Bytes → EncodedImage → CompressCode × EncodedImage
  run_encode png_encode image quality label = codecs.compress_png_level image quality label
  run_encode png_more image quality label = run_png_more image label
  run_encode png_quant image quality label =
      codecs.compress_png_quantized image (if leb_ℤ quality (pos 0) then pos 128 else quality) label
  run_encode webp_encode image quality label = codecs.compress_webp image quality
  run_encode avif_encode image quality label = codecs.compress_avif image quality

  -- `fp_encode_task_run`, without its times.
  unfoldable pub encode_task_run : Image → EncodeTask → EncodedImage → CompressCode × EncodedImage
  unfolding run_encode
  encode_task_run image task output =
      let (code, e) = run_encode task.encode image task.quality task.label output in
      let tuning =
        if ltb_ℤ (pos 0) task.tune_direction
        then codes "more"
        else if ltb_ℤ task.tune_direction (pos 0)
        then codes "less"
        else [] in
      (code, if is_ok code then record e { tuning = tuning } else e)
