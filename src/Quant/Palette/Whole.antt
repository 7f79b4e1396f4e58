-- ===== src/Quant/Palette/Whole.antt =====
-- `fp_compress_png_quantized` of src/compress_png.c on a whole image.
use ferretptimize.Common.{
  ℕ, zero, suc, ◌*◌, ◌^◌, ◌≤◌, ◌<◌, ◌≡◌, ◌∙◌, refl, ap, true, false, Option, none, some, List, [],
  ◌∷◌, map, min, ltb, ◌==◌, length, take, take-all, sum, All, arith,
}
use ferretptimize.Common.Int.{ℤ, pos, negsuc}
use ferretptimize.Common.Bytes.{Bytes, IsByte}
use ferretptimize.Ferret.{EncodedImage}
use ferretptimize.Image.{Image}
use ferretptimize.Quant.{QuantColor, ColorBox, median_cut}
use ferretptimize.Quant.Cutting.{median_cut-IsPartition}
use ferretptimize.Quant.Palette.{
  no_sums, bucket_count, tally, used_colors, clamp_target, limit_target, box_color, index_pixels,
  trans_alpha, label_or_default, encode_png_palette, palette_of, compress_png_quantized,
}
use ferretptimize.Quant.Palette.Buckets.{used_colors-nonempty}
use ferretptimize.Quant.Palette.Nearest.{IsByteColor, AreClosest, index_pixels-AreClosest}

clamp_target-bounds : (target : ℤ) → (1 ≤ clamp_target target) × (clamp_target target ≤ 256)
unfolding clamp_target
clamp_target-bounds (pos zero) = (omega arith, omega arith)
clamp_target-bounds (pos (suc n)) = ground arith
clamp_target-bounds (negsuc n) = (omega arith, omega arith)

limit_target-bounds :
    (target count : ℕ)
    → 1 ≤ target
    → 1 ≤ count
    → (1 ≤ limit_target target count)
      × (limit_target target count ≤ target)
      × (limit_target target count ≤ count)
unfolding limit_target
limit_target-bounds target count h k = ground arith

length-map : {A B : Type 0} (f : A → B) (xs : List A) → length (map f xs) ≡ length xs
length-map f [] = refl
length-map f (x ∷ xs) = ap suc (length-map f xs)

map-IsByteColor :
    (f : ColorBox → QuantColor) (boxes : List ColorBox)
    → ((b : ColorBox) → IsByteColor (f b))
    → All IsByteColor (map f boxes)
map-IsByteColor f [] h = tt
map-IsByteColor f (b ∷ boxes) h = (h b, map-IsByteColor f boxes h)

box_color-IsByteColor :
    (colors : List QuantColor) (box : ColorBox) → IsByteColor (box_color colors box)
unfolding box_color
box_color-IsByteColor colors box = ground arith

encode_png_palette-written :
    (write_png : ℕ → ℕ → List QuantColor → Option (List (Option ℕ)) → Bytes → Option Bytes)
    (width height : ℕ) (indexed : Bytes) (palette : List QuantColor) (label content : Bytes)
    → 1 ≤ length palette
    → length palette ≤ 256
    → write_png width height palette (trans_alpha palette) indexed ≡ some content
    → (out : EncodedImage) × (encode_png_palette write_png width height indexed palette label
        ≡ some out)
      × (out.content ≡ some content)
unfolding encode_png_palette
encode_png_palette-written write_png width height indexed palette label content some_colors below
      e =
    let one : (length palette == 0) ≡ false = ground (arith, some_colors) in
    let fits : ltb 256 (length palette) ≡ false = ground (arith, below) in
    rw (encode_png_palette, one, fits, e) (_, refl, refl)

encode_png_palette-failed :
    (write_png : ℕ → ℕ → List QuantColor → Option (List (Option ℕ)) → Bytes → Option Bytes)
    (width height : ℕ) (indexed : Bytes) (palette : List QuantColor) (label : Bytes)
    → write_png width height palette (trans_alpha palette) indexed ≡ none
    → encode_png_palette write_png width height indexed palette label ≡ none
unfolding encode_png_palette
encode_png_palette-failed write_png width height indexed palette label e = ground (arith, e)

-- The number of colours asked for: 128 where none is, and 256 at most.
abbrev pub asked_colors : ℤ → ℕ
asked_colors (pos zero) = 128
asked_colors (pos (suc n)) = min (suc n) 256
asked_colors (negsuc n) = 128

limit_target-asked :
    (target : ℤ) (count : ℕ)
    → 1 ≤ count
    → limit_target (clamp_target target) count ≡ min (asked_colors target) count
unfolding limit_target clamp_target
limit_target-asked (pos zero) count h = ground (arith, h)
limit_target-asked (pos (suc n)) count h = ground (arith, h)
limit_target-asked (negsuc n) count h = ground (arith, h)

-- The mean colours of the buckets that the image uses.
abbrev pub image_colors : Image → List QuantColor
image_colors image = used_colors bucket_count (tally (λ i. no_sums) image.pixels)

module _ (qsort : (QuantColor → QuantColor → ℤ) → List QuantColor → List QuantColor)
    (qsort-sum : (compare : QuantColor → QuantColor → ℤ) (f : QuantColor → ℕ) (xs : List QuantColor)
      → sum f (qsort compare xs) ≡ sum f xs)
    (write_png : ℕ → ℕ → List QuantColor → Option (List (Option ℕ)) → Bytes → Option Bytes) where
  length-palette_of :
      (colors : List QuantColor) (target : ℕ)
      → 1 ≤ target
      → 1 ≤ length colors
      → length (palette_of qsort colors target) ≡ limit_target target (length colors)
  unfolding palette_of
  length-palette_of colors target h k =
      let (some_colors, below, room) = limit_target-bounds target (length colors) h k in
      let cut = median_cut qsort colors (limit_target target (length colors)) in
      length-map (box_color cut.colors) cut.boxes
      ∙ (median_cut-IsPartition qsort qsort-sum colors (limit_target target (length colors))
          some_colors room).1

  -- What a call makes of an image: a palette of byte colours, an index for each pixel, and the file
  -- that libpng writes of them.
  pub record IsPaletteImage (image : Image) (target : ℤ) (label : Option Bytes) : Type 0 where
    pub palette : List QuantColor
    pub indexed : Bytes
    pub size : length palette ≡ min (asked_colors target) (length (image_colors image))
    pub some_colors : 1 ≤ length palette
    pub below : length palette ≤ 256
    pub closest : AreClosest palette image.pixels indexed
    pub written :
        (content : Bytes)
        → write_png image.width image.height palette (trans_alpha palette) indexed ≡ some content
        → (out : EncodedImage) × (compress_png_quantized qsort write_png true image target label
            ≡ some out)
          × (out.content ≡ some content)
    pub failed :
        write_png image.width image.height palette (trans_alpha palette) indexed ≡ none
        → compress_png_quantized qsort write_png true image target label ≡ none
    pub no_memory : compress_png_quantized qsort write_png false image target label ≡ none

  palette_of-IsByteColor :
      (colors : List QuantColor) (target : ℕ) → All IsByteColor (palette_of qsort colors target)
  unfolding palette_of
  palette_of-IsByteColor colors target =
      let cut = median_cut qsort colors (limit_target target (length colors)) in
      map-IsByteColor (box_color cut.colors) cut.boxes (box_color-IsByteColor cut.colors)

  index_all :
      (palette : List QuantColor) (pixels : Bytes)
      → 1 ≤ length palette
      → length palette ≤ 256
      → All IsByteColor palette
      → All IsByte pixels
      → AreClosest palette pixels (index_pixels palette pixels)
  index_all [] pixels some_colors below colors h = absurd (omega arith)
  index_all (c ∷ palette) pixels some_colors below colors h =
      index_pixels-AreClosest c palette pixels h colors.0 below

  -- An image of at least one and less than 2 ^ 32 pixels gets a palette of as many colours as asked
  -- for, at most 256 and one for each used bucket, each pixel gets the first of the colours at the least
  -- distance, and the call fails only where libpng or an allocation does. A target of 0 or less asks for
  -- 128 colours.
  pub compress_png_quantized-IsPaletteImage :
      (image : Image) (target : ℤ) (label : Option Bytes)
      → 1 ≤ image.width * image.height
      → image.width * image.height < 2 ^ 32
      → length image.pixels ≡ image.width * image.height * 4
      → All IsByte image.pixels
      → IsPaletteImage image target label
  unfolding compress_png_quantized
  compress_png_quantized-IsPaletteImage image target label some_pixels small size h =
      let pixels = take (image.width * image.height * 4) image.pixels in
      let colors = image_colors image in
      let palette = palette_of qsort colors (clamp_target target) in
      let indexed = index_pixels palette image.pixels in
      let whole : pixels ≡ image.pixels =
        take-all (image.width * image.height * 4) image.pixels (omega (arith, size)) in
      let used =
        used_colors-nonempty image.pixels h (omega (arith, size, some_pixels))
          (omega (arith, size, small)) in
      let (positive, most) = clamp_target-bounds target in
      let (some_colors, below, room) =
        limit_target-bounds (clamp_target target) (length colors) positive used in
      let length_palette = length-palette_of colors (clamp_target target) positive used in
      let one : 1 ≤ length palette = omega (arith, length_palette, some_colors) in
      let fits : length palette ≤ 256 = omega (arith, length_palette, below, most) in
      let has_size : (image.width * image.height == 0) ≡ false = ground (arith, some_pixels) in
      let has_colors : (length colors == 0) ≡ false = ground (arith, used) in
      let same : compress_png_quantized qsort write_png true image target label
          ≡ encode_png_palette write_png image.width image.height indexed palette
              (label_or_default label) =
        rw (compress_png_quantized, whole, has_size, has_colors) refl in
      record {
        palette = palette;
        indexed = indexed;
        size = length_palette ∙ limit_target-asked target (length colors) used;
        some_colors = one;
        below = fits;
        closest =
            index_all palette image.pixels one fits
              (palette_of-IsByteColor colors (clamp_target target)) h;
        written = λ content e.
            let (out, made, holds) =
              encode_png_palette-written write_png image.width image.height indexed palette
                (label_or_default label) content one fits e in
            (out, same ∙ made, holds);
        failed = λ e.
            same
            ∙ encode_png_palette-failed write_png image.width image.height indexed palette
                (label_or_default label) e;
        no_memory = ground arith;
      }
