-- ===== src/Quant/Palette.antt =====
-- The rest of `fp_compress_png_quantized` in src/compress_png.c: the buckets that the pixels fall into,
-- the palette of the boxes, the lookup of each pixel, and `fp_encode_png_palette`. What libpng writes
-- is a parameter.
pub mod Alpha
pub mod Nearest
pub mod Buckets
pub mod Whole
mod Tests
use ferretptimize.Common.{
  ℕ, zero, suc, ◌+◌, ◌-◌, ◌*◌, ◌/◌, ◌%◌, ◌^◌, Bool, true, false, not, ◌&&◌, ◌||◌, Option, none,
  some, List, [], ◌∷◌, ◌++◌, map, leb, ltb, ◌==◌, if◌then◌else◌, length, take, sum,
}
use ferretptimize.Common.Int.{ℤ, pos, negsuc}
use ferretptimize.Common.Bytes.{Bytes, codes}
use ferretptimize.Ferret.{EncodedImage}
use ferretptimize.Image.{Image}
use ferretptimize.Quant.{QuantColor, ColorBox, Cut, segment, median_cut}

-- `counts[bucket]`, `sum_r[bucket]` and the others, at one bucket.
pub record Sums : Type 0 where
  pub count : ℕ
  pub r : ℕ
  pub g : ℕ
  pub b : ℕ
  pub a : ℕ

abbrev pub no_sums : Sums
no_sums = record { count = 0; r = 0; g = 0; b = 0; a = 0 }

abbrev pub bucket_count : ℕ
bucket_count = 65536

-- The bucket of a pixel; the four halves of bytes do not overlap, so `|` adds them.
abbrev pub bucket_of : ℕ → ℕ → ℕ → ℕ → ℕ
bucket_of r g b a = r / 16 * 4096 + g / 16 * 256 + b / 16 * 16 + a / 16

abbrev pub add_pixel : ℕ → ℕ → ℕ → ℕ → Sums → Sums
add_pixel r g b a s = record {
  count = (s.count + 1) % 2 ^ 32;
  r = (s.r + r) % 2 ^ 64;
  g = (s.g + g) % 2 ^ 64;
  b = (s.b + b) % 2 ^ 64;
  a = (s.a + a) % 2 ^ 64;
}

-- The loop over the pixels.
unfoldable pub tally : (ℕ → Sums) → Bytes → ℕ → Sums
tally sums (r ∷ g ∷ b ∷ a ∷ pixels) =
    let here = bucket_of r g b a in
    tally (λ i. if i == here then add_pixel r g b a (sums i) else sums i) pixels
tally sums _ = sums

abbrev pub average : Sums → QuantColor
average s = record {
  r = s.r / s.count % 256;
  g = s.g / s.count % 256;
  b = s.b / s.count % 256;
  a = s.a / s.count % 256;
  count = s.count;
}

-- The loop that fills `colors`, over the last `left` buckets.
unfoldable pub used_colors : ℕ → (ℕ → Sums) → List QuantColor
used_colors zero sums = []
used_colors (suc left) sums =
    let s = sums (bucket_count - suc left) in
    let rest = used_colors left sums in if s.count == 0 then rest else average s ∷ rest

-- What happens to `target_colors`, before and after the colours are counted.
unfoldable pub clamp_target : ℤ → ℕ
clamp_target (pos zero) = 128
clamp_target (pos (suc n)) = if ltb 256 (suc n) then 256 else suc n
clamp_target (negsuc n) = 128

unfoldable pub limit_target : ℕ → ℕ → ℕ
limit_target target color_count =
    let least = if ltb color_count target then color_count else target in
    if least == 0 then 1 else least

-- The palette's colour for a box.
unfoldable pub box_color : List QuantColor → ColorBox → QuantColor
box_color colors box =
    let held = segment box.start box.end colors in
    let counted = sum (λ c. c.count) held in
    let total = if counted == 0 then 1 else counted in
    record {
      r = sum (λ c. c.r * c.count) held / total % 256;
      g = sum (λ c. c.g * c.count) held / total % 256;
      b = sum (λ c. c.b * c.count) held / total % 256;
      a = sum (λ c. c.a * c.count) held / total % 256;
      count = total % 2 ^ 32;
    }

abbrev pub square_between : ℕ → ℕ → ℕ
square_between x y = let d = if leb x y then y - x else x - y in d * d

-- `dist`.
abbrev pub distance : ℕ → ℕ → ℕ → ℕ → QuantColor → ℕ
distance r g b a c =
    square_between r c.r + square_between g c.g + square_between b c.b + square_between a c.a

-- The loop over the palette, from the entry at `p` on.
unfoldable pub nearest_from : (QuantColor → ℕ) → ℕ → ℕ → ℕ → List QuantColor → ℕ
nearest_from dist p best best_dist [] = best
nearest_from dist p best best_dist (c ∷ palette) =
    let closer = ltb (dist c) best_dist in
    nearest_from dist (suc p) (if closer then p else best) (if closer then dist c else best_dist)
      palette

abbrev pub max_u32 : ℕ
max_u32 = 2 ^ 32 - 1

abbrev pub nearest : (QuantColor → ℕ) → List QuantColor → ℕ
nearest dist palette = nearest_from dist 0 0 max_u32 palette

-- `indexed`.
unfoldable pub index_pixels : List QuantColor → Bytes → Bytes
index_pixels palette (r ∷ g ∷ b ∷ a ∷ pixels) =
    nearest (distance r g b a) palette % 256 ∷ index_pixels palette pixels
index_pixels palette _ = []

-- The loop of `fp_encode_png_palette` that fills `trans_alpha`, from the entry at `i` on: its cells,
-- none where the loop leaves one unset, and `num_trans`.
unfoldable pub trans_loop : ℕ → ℕ → List QuantColor → List (Option ℕ) × ℕ
trans_loop i num_trans [] = ([], num_trans)
trans_loop i num_trans (c ∷ palette) =
    let transparent = ltb c.a 255 in
    let after = trans_loop (suc i) (if transparent then i + 1 else num_trans) palette in
    let cell : Option ℕ =
      if transparent then some c.a else if ltb 0 num_trans then some 255 else none in
    (cell ∷ after.0, after.1)

-- What `png_set_tRNS` gets, if it is called.
unfoldable pub trans_alpha : List QuantColor → Option (List (Option ℕ))
trans_alpha palette =
    let filled = trans_loop 0 0 palette in
    if ltb 0 filled.1 then some (take filled.1 filled.0) else none

-- `strncpy` into a field of `size` bytes, the last of them a NUL.
abbrev pub field : ℕ → Bytes → Bytes
field size text = take (size - 1) text

abbrev pub label_or_default : Option Bytes → Bytes
label_or_default (some (c ∷ s)) = take 31 (c ∷ s)
label_or_default _ = codes "pngquant q80"

module _
    (write_png : ℕ → ℕ → List QuantColor → Option (List (Option ℕ)) → Bytes → Option Bytes) where
  -- `fp_encode_png_palette`; none for FP_COMPRESS_ENCODE_ERROR. `write_png` gets the size, the palette,
  -- the alphas and the pixels, and is none where libpng fails.
  unfoldable pub encode_png_palette : ℕ → ℕ → Bytes → List QuantColor → Bytes → Option EncodedImage
  encode_png_palette width height indexed palette label =
      let written = write_png width height palette (trans_alpha palette) indexed in
      if length palette == 0 || ltb 256 (length palette) then none else elim written [
        | none ↦ none
        | some content ↦ some (record {
          format = codes "png";
          label = field 32 label;
          mime = codes "image/png";
          extension = codes "png";
          tuning = [];
          content = some content;
          size = length content;
        })
      ]

module _ (qsort : (QuantColor → QuantColor → ℤ) → List QuantColor → List QuantColor) where
  -- The palette for the colours of the used buckets.
  unfoldable pub palette_of : List QuantColor → ℕ → List QuantColor
  palette_of colors target =
      let cut = median_cut qsort colors (limit_target target (length colors)) in
      map (box_color cut.colors) cut.boxes

module _ (qsort : (QuantColor → QuantColor → ℤ) → List QuantColor → List QuantColor)
    (write_png : ℕ → ℕ → List QuantColor → Option (List (Option ℕ)) → Bytes → Option Bytes) where
  -- `fp_compress_png_quantized`, where `granted` says whether its allocations succeed.
  unfoldable pub compress_png_quantized : Bool → Image → ℤ → Option Bytes → Option EncodedImage
  compress_png_quantized granted image target_colors label =
      let pixels = take (image.width * image.height * 4) image.pixels in
      let colors = used_colors bucket_count (tally (λ i. no_sums) pixels) in
      let palette = palette_of qsort colors (clamp_target target_colors) in
      let indexed = index_pixels palette pixels in
      if image.width * image.height == 0 || not granted || length colors == 0
      then none
      else encode_png_palette write_png image.width image.height indexed palette
          (label_or_default label)
