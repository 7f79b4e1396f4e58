-- ===== src/Ferret.antt =====
-- include/ferret.h and src/ferret.c: jobs, their options and their results, as they travel between
-- the server and the workers. Times are left out. A float is its bit pattern. The array of a
-- job's requested outputs is a list of as many as its count; that of a result's outputs has all six. A pointer to bytes is none for NULL.
use ferretptimize.Common.{
  ℕ, zero, suc, Bool, false, List, [], ◌∷◌, ◌++◌, length, leb, Option, none, if◌then◌else◌,
}
use ferretptimize.Common.Int.{ℤ}
use ferretptimize.Common.Bytes.{Bytes}

abbrev pub max_outputs : ℕ
max_outputs = 6

-- `fp_requested_output`, without its fields `lossless` and `speed`, which nothing reads. `format` is a
-- `char[8]`: the bytes before its first NUL, or all eight when it has none, as "pngquant" has none;
-- `label`, a `char[32]`, follows it.
pub record RequestedOutput : Type 0 where
  pub format : Bytes
  pub label : Bytes
  pub quality : ℤ
  pub compression_level : ℤ

-- The text at the address of `format`: a format of eight bytes has no NUL, and the text goes on
-- into the label.
unfoldable pub format_text : RequestedOutput → Bytes
format_text req = if leb 8 (length req.format) then req.format ++ req.label else req.format

-- `fp_trim_options`.
pub record TrimOptions : Type 0 where
  pub enabled : Bool
  pub tolerance : ℕ

-- `fp_crop_options`.
pub record CropOptions : Type 0 where
  pub enabled : Bool
  pub x : ℤ
  pub y : ℤ
  pub width : ℤ
  pub height : ℤ

-- `fp_encoded_image`.
pub record EncodedImage : Type 0 where
  pub format : Bytes
  pub label : Bytes
  pub mime : Bytes
  pub extension : Bytes
  pub tuning : Bytes
  pub content : Option Bytes
  pub size : ℕ

-- `fp_job`; `progress` says whether the job holds a reference to its progress channel.
pub record Job : Type 0 where
  pub id : ℕ
  pub filename : Bytes
  pub content : Option Bytes
  pub size : ℕ
  pub progress : Bool
  pub tune_format : Bytes
  pub tune_label : Bytes
  pub tune_direction : ℤ
  pub is_expert : Bool
  pub requested_outputs : List RequestedOutput
  pub trim_options : TrimOptions
  pub crop_options : CropOptions

-- `fp_result`.
pub record JobResult : Type 0 where
  pub id : ℕ
  pub input_size : ℕ
  pub outputs : List EncodedImage
  pub output_count : ℕ
  pub status : ℤ
  pub message : Bytes
  pub input_width : ℕ
  pub input_height : ℕ
  pub output_width : ℕ
  pub output_height : ℕ
  pub trim_applied : Bool
  pub crop_applied : Bool

-- The output that `calloc` gives.
abbrev pub blank : EncodedImage
blank = record {
  format = [];
  label = [];
  mime = [];
  extension = [];
  tuning = [];
  content = none;
  size = 0;
}

abbrev released : EncodedImage → EncodedImage
released e = record e { content = none; size = 0 }

-- The loop of `fp_free_result`, over the first `n` outputs.
unfoldable pub release_first : ℕ → List EncodedImage → List EncodedImage
release_first zero es = es
release_first (suc n) [] = []
release_first (suc n) (e ∷ es) = released e ∷ release_first n es

-- `fp_free_result`.
unfoldable pub free_result : JobResult → JobResult
unfolding release_first
free_result r = record r { outputs = release_first r.output_count r.outputs }

-- `fp_free_job`: the job after it, and how often it releases the progress channel.
unfoldable pub free_job : Job → Job × ℕ
free_job j = (record j { content = none; size = 0; progress = false }, if j.progress then 1 else 0)
