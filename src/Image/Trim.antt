-- ===== src/Image/Trim.antt =====
-- The box that `fp_trim_image` finds: it covers every pixel above the threshold, and is the least.
use ferretptimize.Common.{ℕ, ◌<◌, ◌≡◌, ◌⊎◌, ltb, if◌then◌else◌}
use ferretptimize.Common.Int.{negsuc}
use ferretptimize.Image.{Image, Box, signed32, alpha, widen}

module _ (threshold : ℕ) (image : Image) where
  -- A pixel of the image that the scan counts.
  pub record IsHit (x y : ℕ) : Type 0 where
    pub in_row : x < image.width
    pub in_column : y < image.height
    pub above : threshold < alpha image x y

  -- The box after one pixel.
  abbrev counted : ℕ → ℕ → Box → Box
  counted x y b = if ltb threshold (alpha image x y) then widen b (signed32 x) (signed32 y) else b

  -- Each side of the box is where the scan started it, or touches a pixel that counts.
  pub record IsTight (b : Box) : Type 0 where
    pub left :
        (b.min_x ≡ signed32 image.width) ⊎ ((x : ℕ) × (y : ℕ) × (b.min_x ≡ signed32 x) × IsHit x y)
    pub top :
        (b.min_y ≡ signed32 image.height) ⊎ ((x : ℕ) × (y : ℕ) × (b.min_y ≡ signed32 y) × IsHit x y)
    pub right : (b.max_x ≡ negsuc 0) ⊎ ((x : ℕ) × (y : ℕ) × (b.max_x ≡ signed32 x) × IsHit x y)
    pub bottom : (b.max_y ≡ negsuc 0) ⊎ ((x : ℕ) × (y : ℕ) × (b.max_y ≡ signed32 y) × IsHit x y)

  abbrev start : Box
  start = record {
    min_x = signed32 image.width;
    min_y = signed32 image.height;
    max_x = negsuc 0;
    max_y = negsuc 0;
  }
