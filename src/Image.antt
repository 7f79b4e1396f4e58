-- ===== src/Image.antt =====
-- src/image_ops.c: cropping and trimming an RGBA image in place.
-- An `int` is a ℤ; its addition wraps at 32 bits, as the compiled code does where C leaves signed
-- overflow undefined. A Boolean says whether `malloc` succeeds.
pub mod Crop
pub mod Bounds
pub mod Trim
pub mod Seed
mod Tests
use ferretptimize.Common.{
  ℕ, zero, suc, ◌+◌, ◌-◌, ◌*◌, ◌%◌, ◌^◌, Bool, true, false, ◌&&◌, ◌||◌, List, [], ◌∷◌, ◌++◌, Option,
  none, some, ltb, leb, ◌==◌, if◌then◌else◌, get_or, take, drop, length,
}
use ferretptimize.Common.Int.{ℤ, pos, negsuc, pos_part, neg_part, ◌+ℤ◌, ◌-ℤ◌, ltb_ℤ, leb_ℤ, sub_ℕ}
use ferretptimize.Common.Bytes.{Bytes}

-- `fp_rgba_image`.
pub record Image : Type 0 where
  pub pixels : Bytes
  pub width : ℕ
  pub height : ℕ

-- `fp_image_ops_report`.
pub record Report : Type 0 where
  pub original_width : ℕ
  pub original_height : ℕ
  pub final_width : ℕ
  pub final_height : ℕ
  pub trim_applied : Bool
  pub crop_applied : Bool

-- `fp_image_ops_seed_report`.
unfoldable pub seed_report : Image → Report → Report
seed_report image r = record r {
  original_width = image.width;
  original_height = image.height;
  final_width = image.width;
  final_height = image.height;
}

-- The value of a 32-bit pattern read as `int`, and the wrapping sum of two `int`s.
abbrev pub signed32 : ℕ → ℤ
signed32 w = if ltb w (2 ^ 31) then pos w else negsuc (2 ^ 32 - w - 1)

abbrev pub bits32 : ℤ → ℕ
bits32 (pos n) = n % 2 ^ 32
bits32 (negsuc n) = 2 ^ 32 - 1 - n % 2 ^ 32

abbrev pub add_int : ℤ → ℤ → ℤ
add_int a b = signed32 ((bits32 a + bits32 b) % 2 ^ 32)

-- The `memcpy` of `n` rows, from byte `at` on.
unfoldable pub copy_rows : Bytes → ℕ → ℕ → ℕ → ℕ → Bytes
copy_rows pixels stride new_stride zero at = []
copy_rows pixels stride new_stride (suc n) at =
    take new_stride (drop at pixels) ++ copy_rows pixels stride new_stride n (at + stride)

-- `if (x < 0) x = 0;`
abbrev pub clamp_low : ℤ → ℤ
clamp_low a = if ltb_ℤ a (pos 0) then pos 0 else a

-- `if (x + width > iw) width = iw - x;`
abbrev pub clamp_extent : ℤ → ℤ → ℤ → ℤ
clamp_extent start extent limit =
    if ltb_ℤ limit (add_int start extent) then limit -ℤ start else extent

-- What is left of `fp_crop_image` once the rectangle is clamped.
unfoldable pub cut_out : Bool → Image → ℕ → ℕ → ℕ → ℕ → Report → Option (Image × Report)
cut_out memory_ok image x y width height r =
    let stride = image.width * 4 in
    let cropped = copy_rows image.pixels stride (width * 4) height (y * stride + x * 4) in
    if memory_ok
    then some (
      record { pixels = cropped; width = width; height = height },
      record r { crop_applied = true; final_width = width; final_height = height },
    )
    else none

-- `fp_crop_image` with a report. The result says whether the call returns 0 and not -1, beside the
-- image and the report that it leaves.
unfoldable pub crop : Bool → Image → ℤ → ℤ → ℤ → ℤ → Report → Bool × Image × Report
crop memory_ok image x y width height r =
    let seeded = seed_report image r in
    let iw = signed32 image.width in
    let ih = signed32 image.height in
    let x' = clamp_low x in
    let y' = clamp_low y in
    let w = clamp_extent x' width iw in
    let h = clamp_extent y' height ih in
    let out =
      cut_out memory_ok image (pos_part x') (pos_part y') (pos_part w) (pos_part h) seeded in
    if leb_ℤ width (pos 0) || leb_ℤ height (pos 0)
    then (false, image, r)
    else if leb_ℤ iw (pos 0) || leb_ℤ ih (pos 0)
    then (false, image, seeded)
    else if leb_ℤ iw x' || leb_ℤ ih y'
    then (false, image, seeded)
    else if leb_ℤ w (pos 0) || leb_ℤ h (pos 0)
    then (false, image, seeded)
    else elim out [ some (image', r') ↦ (true, image', r') | none ↦ (false, image, seeded) ]

-- The bounds that the scan of `fp_trim_image` keeps.
pub record Box : Type 0 where
  pub min_x : ℤ
  pub min_y : ℤ
  pub max_x : ℤ
  pub max_y : ℤ

-- The alpha byte of the pixel at `x`, `y`.
abbrev pub alpha : Image → ℕ → ℕ → ℕ
alpha image x y = get_or image.pixels (y * (image.width * 4) + x * 4 + 3) 0

-- The four tests on `(int)x` and `(int)y`.
abbrev pub widen : Box → ℤ → ℤ → Box
widen b x y = record {
  min_x = if ltb_ℤ x b.min_x then x else b.min_x;
  min_y = if ltb_ℤ y b.min_y then y else b.min_y;
  max_x = if ltb_ℤ b.max_x x then x else b.max_x;
  max_y = if ltb_ℤ b.max_y y then y else b.max_y;
}

module _ (threshold : ℕ) (image : Image) where
  -- The inner loop: `n` pixels of row `y` from `x` on.
  unfoldable pub scan_row : ℕ → ℕ → ℕ → Box → Box
  scan_row zero x y b = b
  scan_row (suc n) x y b =
      scan_row n (x + 1) y
        (if ltb threshold (alpha image x y) then widen b (signed32 x) (signed32 y) else b)

  -- The outer loop: `n` rows from `y` on.
  unfoldable pub scan_rows : ℕ → ℕ → Box → Box
  scan_rows zero y b = b
  scan_rows (suc n) y b = scan_rows n (y + 1) (scan_row image.width 0 y b)

  -- The box of all pixels above the threshold, or the first pixel if there is none.
  unfoldable pub trim_box : Box
  trim_box =
      let b = scan_rows image.height 0 (record {
        min_x = signed32 image.width;
        min_y = signed32 image.height;
        max_x = negsuc 0;
        max_y = negsuc 0;
      }) in
      if ltb_ℤ b.max_x b.min_x || ltb_ℤ b.max_y b.min_y
      then record { min_x = pos 0; min_y = pos 0; max_x = pos 0; max_y = pos 0 }
      else b

abbrev pub at_zero : ℤ → Bool
at_zero a = leb_ℤ a (pos 0) && leb_ℤ (pos 0) a

-- `max - min + 1` of `int`s, with the wrap-around of the machine.
abbrev pub side_length : ℤ → ℤ → ℤ
side_length low high = add_int (high -ℤ low) (pos 1)

-- `fp_trim_image` on an image with pixels, from the threshold that it computes of the tolerance. The
-- result is as for `crop`.
unfoldable pub trim : Bool → ℕ → Image → Report → Bool × Image × Report
trim memory_ok threshold image r =
    let seeded = seed_report image r in
    let b = trim_box threshold image in
    let new_w = side_length b.min_x b.max_x in
    let new_h = side_length b.min_y b.max_y in
    let cropped = crop memory_ok image b.min_x b.min_y new_w new_h seeded in
    let (done, image', r') = cropped in
    if image.width == 0 || image.height == 0
    then (false, image, seeded)
    else if bits32 new_w == image.width
        && bits32 new_h == image.height
        && at_zero b.min_x
        && at_zero b.min_y
    then (true, image, seeded)
    else (done, image', if done then record r' { trim_applied = true } else r')
