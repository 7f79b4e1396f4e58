-- ===== src/Image/Tests.antt =====
-- The image operations on a small image, and their theorems there.
use ferretptimize.Common.{◌≡◌, refl, arith, true, false, [], ◌∷◌}
use ferretptimize.Common.Int.{pos, negsuc}
use ferretptimize.Image.{
  Image, Report, crop, trim, trim_box, cut_out, copy_rows, seed_report, scan_row, scan_rows,
}
use ferretptimize.Image.Crop.{IsImage, Cropped, crop_lem}

-- Three by two pixels; the second of the first row and the last are opaque.
abbrev picture : Image
picture = record {
  pixels =
      1 ∷ 1 ∷ 1 ∷ 0 ∷ 2 ∷ 2 ∷ 2 ∷ 255 ∷ 3 ∷ 3 ∷ 3 ∷ 0 ∷ 4 ∷ 4 ∷ 4 ∷ 0 ∷ 5 ∷ 5 ∷ 5 ∷ 0 ∷ 6 ∷ 6 ∷ 6
      ∷ 255 ∷ [];
  width = 3;
  height = 2;
}

abbrev blank : Report
blank = record {
  original_width = 0;
  original_height = 0;
  final_width = 0;
  final_height = 0;
  trim_applied = false;
  crop_applied = false;
}

-- Two pixels, the second one opaque, and the report of their trim.
abbrev dots : Image
dots = record { pixels = 1 ∷ 1 ∷ 1 ∷ 0 ∷ 2 ∷ 2 ∷ 2 ∷ 255 ∷ []; width = 2; height = 1 }

abbrev trimmed_report : Report
trimmed_report = record {
  original_width = 2;
  original_height = 1;
  final_width = 1;
  final_height = 1;
  trim_applied = true;
  crop_applied = true;
}

picture-IsImage : IsImage picture
picture-IsImage = omega arith

-- The trim keeps the second and the third column.
trim-picture : (trim true 100 picture blank).1 ≡ record {
  pixels = 2 ∷ 2 ∷ 2 ∷ 255 ∷ 3 ∷ 3 ∷ 3 ∷ 0 ∷ 5 ∷ 5 ∷ 5 ∷ 0 ∷ 6 ∷ 6 ∷ 6 ∷ 255 ∷ [];
  width = 2;
  height = 2;
}
unfolding trim trim_box scan_rows scan_row crop cut_out copy_rows seed_report
trim-picture = refl

crop_lem_example :
    Cropped picture 1 0 5 1 (crop true picture (pos 1) (negsuc 4) (pos 5) (pos 1) blank)
crop_lem_example =
    crop_lem picture (pos 1) (negsuc 4) 5 1 blank picture-IsImage (omega arith) (omega arith)
      (omega arith) (omega arith) (omega arith) (omega arith)

trim-dots :
    trim true 100 dots blank
    ≡ (true, record { pixels = 2 ∷ 2 ∷ 2 ∷ 255 ∷ []; width = 1; height = 1 }, trimmed_report)
unfolding trim trim_box scan_rows scan_row crop cut_out copy_rows seed_report
trim-dots = refl
