-- ===== src/Image/Crop.antt =====
-- What `fp_crop_image` keeps, and the sum that may wrap.
use ferretptimize.Common.{
  ℕ, zero, suc, ◌+◌, ◌-◌, ◌*◌, ◌^◌, ◌≤◌, ◌<◌, ◌≡◌, ◌∙◌, refl, ap, Bool, true, min, get_elem?, take,
  drop, length, length-append, length-take, length-drop, get_elem?-append_left,
  get_elem?-append_right, get_elem?-take, get_elem?-drop, arith,
}
use ferretptimize.Common.Int.{ℤ, pos, negsuc, pos_part}
use ferretptimize.Common.Bytes.{Bytes}
use ferretptimize.Image.{
  Image, Report, signed32, clamp_low, clamp_extent, seed_report, copy_rows, cut_out, crop,
}

-- Four bytes for each pixel, and sides that an `int` holds.
pub record IsImage (image : Image) : Type 0 where
  pub pixels_fit : length image.pixels ≡ image.width * 4 * image.height
  pub narrow : image.width < 2 ^ 31
  pub low : image.height < 2 ^ 31

length-copy_rows :
    (pixels : Bytes) (stride ns n at : ℕ)
    → at + n * stride ≤ length pixels + (stride - ns)
    → ns ≤ stride
    → length (copy_rows pixels stride ns n at) ≡ ns * n
unfolding copy_rows
length-copy_rows pixels stride ns zero at h k = omega arith
length-copy_rows pixels stride ns (suc n) at h k = grind (
  arith,
  length-append (take ns (drop at pixels)) (copy_rows pixels stride ns n (at + stride)),
  length-take ns (drop at pixels),
  length-drop at pixels,
  length-copy_rows pixels stride ns n (at + stride) (grind arith) k,
)

get_elem?-copy_rows :
    (pixels : Bytes) (stride ns n at j k i : ℕ)
    → at + n * stride ≤ length pixels + (stride - ns)
    → ns ≤ stride
    → j < n
    → k < ns
    → i ≡ ns * j + k
    → get_elem? (copy_rows pixels stride ns n at) i ≡ get_elem? pixels (at + stride * j + k)
unfolding copy_rows
get_elem?-copy_rows pixels stride ns zero at j k i h le hj hk e = absurd (omega arith)
get_elem?-copy_rows pixels stride ns (suc n) at zero k i h le hj hk e =
    let row = take ns (drop at pixels) in
    let first : length row ≡ ns =
      grind (arith, length-take ns (drop at pixels), length-drop at pixels) in
    get_elem?-append_left row (copy_rows pixels stride ns n (at + stride)) i (omega arith)
    ∙ get_elem?-take ns (drop at pixels) i (omega arith)
    ∙ get_elem?-drop at pixels i (at + stride * 0 + k) (omega arith)
get_elem?-copy_rows pixels stride ns (suc n) at (suc j) k i h le hj hk e =
    let row = take ns (drop at pixels) in
    let first : length row ≡ ns =
      grind (arith, length-take ns (drop at pixels), length-drop at pixels) in
    get_elem?-append_right row (copy_rows pixels stride ns n (at + stride)) i (ns * j + k)
      (omega arith)
    ∙ get_elem?-copy_rows pixels stride ns n (at + stride) j k (ns * j + k) (omega arith) le
        (omega arith) hk refl
    ∙ ap (get_elem? pixels) (omega arith)

-- The rectangle that is left of `width` by `height` at `x`, `y` inside the image.
pub record Cropped (image : Image) (x y width height : ℕ) (out : Bool × Image × Report)
    : Type 0 where
  pub succeeds : out.0 ≡ true
  pub new_width : out.1.width ≡ min width (image.width - x)
  pub new_height : out.1.height ≡ min height (image.height - y)
  pub valid : IsImage out.1
  pub applied : out.2.crop_applied ≡ true
  pub same_bytes :
      (i j k : ℕ)
      → i < out.1.width
      → j < out.1.height
      → k < 4
      → get_elem? out.1.pixels (out.1.width * 4 * j + (i * 4 + k))
        ≡ get_elem? image.pixels (image.width * 4 * (y + j) + ((x + i) * 4 + k))

clamp_low_lem : (x : ℤ) → clamp_low x ≡ pos (pos_part x)
clamp_low_lem (pos x) = ground arith
clamp_low_lem (negsuc x) = ground arith

signed32_lem : (n : ℕ) → n < 2 ^ 31 → signed32 n ≡ pos n
signed32_lem n h = ground arith

clamp_extent_lem :
    (x width limit : ℕ)
    → x + width < 2 ^ 31
    → x < limit
    → clamp_extent (pos x) (pos width) (pos limit) ≡ pos (min width (limit - x))
clamp_extent_lem x width limit h k = ground arith

-- The call once its guards are passed.
crop-cut_out :
    (image : Image) (x y : ℤ) (width height : ℕ) (r : Report)
    → IsImage image
    → 0 < width
    → 0 < height
    → pos_part x < image.width
    → pos_part y < image.height
    → pos_part x + width < 2 ^ 31
    → pos_part y + height < 2 ^ 31
    → let w = min width (image.width - pos_part x) in
      let h = min height (image.height - pos_part y) in
      let stride = image.width * 4 in
      crop true image x y (pos width) (pos height) r ≡ (
        true,
        record {
          pixels = copy_rows image.pixels stride (w * 4) h (pos_part y * stride + pos_part x * 4);
          width = w;
          height = h;
        },
        record (seed_report image r) { crop_applied = true; final_width = w; final_height = h },
      )
unfolding crop cut_out
crop-cut_out image x y width height r v hw hh hx hy sx sy =
    rw
      (
        clamp_low_lem x,
        clamp_low_lem y,
        signed32_lem image.width v.narrow,
        signed32_lem image.height v.low,
        clamp_extent_lem (pos_part x) width image.width sx hx,
        clamp_extent_lem (pos_part y) height image.height sy hy,
      )
      (ground arith)

scaled-le : (s a b : ℕ) → a ≤ b → a * s ≤ s * b
scaled-le s a b h = grind arith

-- Inside the image no row that is copied runs past the pixels.
rows_inside :
    (image : Image) (x y w h : ℕ)
    → IsImage image
    → x + w ≤ image.width
    → y + h ≤ image.height
    → y * (image.width * 4) + x * 4 + h * (image.width * 4)
      ≤ length image.pixels + (image.width * 4 - w * 4)
rows_inside image x y w h v hx hy =
    omega (arith, v.pixels_fit, scaled-le (image.width * 4) (y + h) image.height hy)

-- A crop with positive extents that starts inside a valid image, and whose sums fit an `int`,
-- succeeds: negative corners count as 0, the extents are cut at the image's edge, the new image is
-- valid, and each of its bytes is the byte of the same pixel of the old image.
pub crop_lem :
    (image : Image) (x y : ℤ) (width height : ℕ) (r : Report)
    → IsImage image
    → 0 < width
    → 0 < height
    → pos_part x < image.width
    → pos_part y < image.height
    → pos_part x + width < 2 ^ 31
    → pos_part y + height < 2 ^ 31
    → Cropped image
        (pos_part x)
        (pos_part y)
        width
        height
        (crop true image x y (pos width) (pos height) r)
crop_lem image x y width height r v hw hh hx hy sx sy =
    rw (crop-cut_out image x y width height r v hw hh hx hy sx sy) record {
      succeeds = refl;
      new_width = refl;
      new_height = refl;
      valid = record {
        pixels_fit = length-copy_rows image.pixels stride (w * 4) h start inside (omega arith);
        narrow = omega (arith, v.narrow);
        low = omega (arith, v.low);
      };
      applied = refl;
      same_bytes = λ i j k hi hj hk.
          get_elem?-copy_rows image.pixels stride (w * 4) h start j (i * 4 + k)
            (w * 4 * j + (i * 4 + k)) inside (omega arith) hj (omega arith) refl
          ∙ ap (get_elem? image.pixels) (grind arith);
    }
  where
    w : ℕ
    w = min width (image.width - pos_part x)

    h : ℕ
    h = min height (image.height - pos_part y)

    stride : ℕ
    stride = image.width * 4

    start : ℕ
    start = pos_part y * stride + pos_part x * 4

    inside : start + h * stride ≤ length image.pixels + (stride - w * 4)
    inside = rows_inside image (pos_part x) (pos_part y) w h v (omega arith) (omega arith)

clamp_extent_wraps :
    (x width limit : ℕ)
    → x < 2 ^ 31
    → width < 2 ^ 31
    → 2 ^ 31 ≤ x + width
    → clamp_extent (pos x) (pos width) (pos limit) ≡ pos width
clamp_extent_wraps x width limit hx hw h = ground arith

-- A crop that starts inside the image and whose first sum is 2 ^ 31 or more is not cut at the right
-- edge: where the sum wraps, the call succeeds with an image as wide as asked for, although the
-- rectangle ends beyond the old image.
pub crop_sum_wraps :
    (image : Image) (x y width height : ℕ) (r : Report)
    → IsImage image
    → x < image.width
    → y < image.height
    → 0 < height
    → y + height < 2 ^ 31
    → width < 2 ^ 31
    → 2 ^ 31 ≤ x + width
    → let out = crop true image (pos x) (pos y) (pos width) (pos height) r in
      (out.0 ≡ true) × (out.1.width ≡ width) × (image.width < x + width)
unfolding crop cut_out
crop_sum_wraps image x y width height r v hx hy hh sy hw wraps =
    rw
      (
        clamp_low_lem (pos x),
        clamp_low_lem (pos y),
        signed32_lem image.width v.narrow,
        signed32_lem image.height v.low,
        clamp_extent_wraps x width image.width (omega (arith, v.narrow)) hw wraps,
        clamp_extent_lem y height image.height sy hy,
      )
      (ground (arith, v.narrow), ground (arith, v.narrow), omega (arith, v.narrow))
