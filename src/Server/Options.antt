-- ===== src/Server/Options.antt =====
-- The expert options of src/server.c, the requests that they become, and the tune targets that an
-- upload may name. A float is its bit pattern.
use ferretptimize.Common.{
  ℕ, Bool, true, false, ◌&&◌, ◌||◌, [], ◌∷◌, Option, none, some, if◌then◌else◌,
}
use ferretptimize.Common.Int.{ℤ, pos, ltb_ℤ}
use ferretptimize.Common.Bytes.{Bytes, codes, case_eq}
use ferretptimize.Ferret.{CropOptions, Job}

-- `fp_expert_options`.
pub record ExpertOptions : Type 0 where
  pub png_level : ℤ
  pub png_quant_colors : ℤ
  pub webp_quality : ℤ
  pub avif_quality : ℤ
  pub trim_enabled : Bool
  pub trim_tolerance : ℕ
  pub crop : CropOptions

-- `fp_set_default_expert_options`; 0x3c23d70a is 0.01f.
abbrev pub default_expert_options : ExpertOptions
default_expert_options = record {
  png_level = pos 6;
  png_quant_colors = pos 128;
  webp_quality = pos 90;
  avif_quality = pos 28;
  trim_enabled = false;
  trim_tolerance = 1008981770;
  crop = record { enabled = false; x = pos 0; y = pos 0; width = pos 0; height = pos 0 };
}

-- `fp_clamp_int_server`.
abbrev pub clamp_int_server : ℤ → ℤ → ℤ → ℤ
clamp_int_server value min_val max_val =
    if ltb_ℤ value min_val then min_val else if ltb_ℤ max_val value then max_val else value

abbrev pub positive_or : ℤ → ℤ → ℤ
positive_or value fallback = if ltb_ℤ (pos 0) value then value else fallback

-- `fp_populate_expert_outputs`.
unfoldable pub populate_expert_outputs : Job → ExpertOptions → Job
populate_expert_outputs job opts =
    let png = clamp_int_server (positive_or opts.png_level (pos 6)) (pos 1) (pos 9) in
    let quant = clamp_int_server (positive_or opts.png_quant_colors (pos 128)) (pos 8) (pos 256) in
    let webp = clamp_int_server (positive_or opts.webp_quality (pos 90)) (pos 10) (pos 100) in
    let avif = clamp_int_server opts.avif_quality (pos 0) (pos 63) in
    let crop = opts.crop in
    record job {
      is_expert = true;
      requested_outputs =
          record {
            format = codes "png";
            label = codes "lossless";
            quality = pos 0;
            compression_level = png;
          }
          ∷ record {
            format = codes "pngquant";
            label = codes "pngquant q80";
            quality = quant;
            compression_level = pos 0;
          }
          ∷ record {
            format = codes "webp";
            label = codes "high";
            quality = webp;
            compression_level = pos 0;
          }
          ∷ record {
            format = codes "avif";
            label = codes "medium";
            quality = avif;
            compression_level = pos 0;
          }
          ∷ [];
      trim_options = record { enabled = opts.trim_enabled; tolerance = opts.trim_tolerance };
      crop_options =
          if crop.enabled && ltb_ℤ (pos 0) crop.width && ltb_ℤ (pos 0) crop.height
          then record crop { enabled = true }
          else job.crop_options;
    }

-- `fp_is_known_target`; the label is none for NULL.
unfoldable pub is_known_target : Option Bytes → Option Bytes → Bool
is_known_target none label = false
is_known_target (some []) label = false
is_known_target (some format) label =
    if case_eq format (codes "png")
    then elim label [
      | none ↦ true
      | some l ↦ case_eq l (codes "lossless") || case_eq l (codes "pngquant q80")
    ]
    else if case_eq format (codes "webp")
    then elim label [ none ↦ true | some l ↦ case_eq l (codes "high") ]
    else if case_eq format (codes "avif")
    then elim label [ none ↦ true | some l ↦ case_eq l (codes "medium") ]
    else false
