-- ===== src/Image/Seed.antt =====
-- What `fp_crop_image` writes into the report.
use ferretptimize.Common.{
  ℕ, ◌≡◌, refl, Bool, true, false, ◌||◌, ◌&&◌, ◌==◌, ◌∙◌, ap, arith, none, some, if_both,
  if◌then◌else◌,
}
use ferretptimize.Common.Int.{ℤ, pos, pos_part, leb_ℤ}
use ferretptimize.Image.{
  Image, Report, bits32, at_zero, side_length, signed32, clamp_low, clamp_extent, seed_report,
  cut_out, crop, trim_box, trim,
}

abbrev Seeded : Image → Bool × Image × Report → Type 0
Seeded image out = (out.2.original_width ≡ image.width) × (out.2.original_height ≡ image.height)

-- Once the asked sides are positive, the report's original size is that of the image.
pub crop-original :
    (ok : Bool) (image : Image) (x y width height : ℤ) (r : Report)
    → (leb_ℤ width (pos 0) || leb_ℤ height (pos 0)) ≡ false
    → let (done, cut, report) = crop ok image x y width height r in
      (report.original_width ≡ image.width) × (report.original_height ≡ image.height)
unfolding crop cut_out seed_report
crop-original ok image x y width height r e =
    let iw = signed32 image.width in
    let ih = signed32 image.height in
    let x' = clamp_low x in
    let y' = clamp_low y in
    let w = clamp_extent x' width iw in
    let h = clamp_extent y' height ih in
    rw e (
      if_both (Seeded image) (leb_ℤ iw (pos 0) || leb_ℤ ih (pos 0)) (refl, refl)
        (if_both (Seeded image) (leb_ℤ iw x' || leb_ℤ ih y') (refl, refl)
          (if_both (Seeded image) (leb_ℤ w (pos 0) || leb_ℤ h (pos 0)) (refl, refl) (last ok))))
  where
    last :
        (b : Bool)
        → Seeded image
            (elim (cut_out b image
              (pos_part (clamp_low x))
              (pos_part (clamp_low y))
              (pos_part (clamp_extent (clamp_low x) width (signed32 image.width)))
              (pos_part (clamp_extent (clamp_low y) height (signed32 image.height)))
              (seed_report image r)) [
                | some (image', r') ↦ (true, image', r')
                | none ↦ (false, image, seed_report image r)
              ])
    last true = (refl, refl)
    last false = (refl, refl)

abbrev Reported : Bool × Image × Report → Type 0
Reported out = out.0 ≡ true → out.2.crop_applied ≡ true

crop-Reported :
    (ok : Bool) (image : Image) (x y width height : ℤ) (r : Report)
    → Reported (crop ok image x y width height r)
unfolding crop cut_out seed_report
crop-Reported ok image x y width height r =
    let iw = signed32 image.width in
    let ih = signed32 image.height in
    let x' = clamp_low x in
    let y' = clamp_low y in
    let w = clamp_extent x' width iw in
    let h = clamp_extent y' height ih in
    if_both Reported (leb_ℤ width (pos 0) || leb_ℤ height (pos 0)) (λ e. cc)
      (if_both Reported (leb_ℤ iw (pos 0) || leb_ℤ ih (pos 0)) (λ e. cc)
        (if_both Reported (leb_ℤ iw x' || leb_ℤ ih y') (λ e. cc)
          (if_both Reported (leb_ℤ w (pos 0) || leb_ℤ h (pos 0)) (λ e. cc) (last ok))))
  where
    last :
        (b : Bool)
        → Reported
            (elim (cut_out b image
              (pos_part (clamp_low x))
              (pos_part (clamp_low y))
              (pos_part (clamp_extent (clamp_low x) width (signed32 image.width)))
              (pos_part (clamp_extent (clamp_low y) height (signed32 image.height)))
              (seed_report image r)) [
                | some (image', r') ↦ (true, image', r')
                | none ↦ (false, image, seed_report image r)
              ])
    last true = λ e. refl
    last false = λ e. cc

abbrev Both : Bool × Image × Report → Type 0
Both out = out.0 ≡ true → out.2.trim_applied ≡ true → out.2.crop_applied ≡ true

trim-Both :
    (ok : Bool) (threshold : ℕ) (image : Image) (r : Report)
    → r.trim_applied ≡ false
    → Both (trim ok threshold image r)
unfolding trim seed_report
trim-Both ok threshold image r before =
    let b = trim_box threshold image in
    let new_w = side_length b.min_x b.max_x in
    let new_h = side_length b.min_y b.max_y in
    if_both Both (image.width == 0 || image.height == 0) (λ e _. cc)
      (if_both Both
        (bits32 new_w == image.width
          && bits32 new_h == image.height
          && at_zero b.min_x
          && at_zero b.min_y)
        (λ _ after. absurd (ground (arith, before, after)))
        (λ done _.
          marked (crop ok image b.min_x b.min_y new_w new_h (seed_report image r)) done
            (crop-Reported ok image b.min_x b.min_y new_w new_h (seed_report image r) done)))
  where
    marked :
        (out : Bool × Image × Report)
        → out.0 ≡ true
        → out.2.crop_applied ≡ true
        → (if out.0 then record out.2 { trim_applied = true } else out.2).crop_applied ≡ true
    marked (true, image', r') d c = c
    marked (false, image', r') d c = c

-- A trim that reports itself, where none was reported before, also reports a crop.
pub trim_reports_crop :
    (ok : Bool) (threshold : ℕ) (image cut : Image) (r report : Report)
    → trim ok threshold image r ≡ (true, cut, report)
    → r.trim_applied ≡ false
    → report.trim_applied ≡ true
    → report.crop_applied ≡ true
trim_reports_crop ok threshold image cut r report e before after =
    rw (← (ap (λ (o : Bool × Image × Report). o.2) e)) (
      trim-Both ok threshold image r before (ap (λ (o : Bool × Image × Report). o.0) e)
        (ap (λ (o : Bool × Image × Report). o.2.trim_applied) e ∙ after))
