-- ===== src/Quant/Palette/Tests.antt =====
-- The quantizer of src/compress_png.c with an insertion sort for `qsort`.
use ferretptimize.Common.{
  ℕ, ◌+◌, ◌≡◌, refl, Option, none, some, List, [], ◌∷◌, map, if◌then◌else◌, length, take, sum,
  arith, Bool-cases, inl, inr,
}
use ferretptimize.Common.Int.{ℤ, pos, ltb_ℤ}
use ferretptimize.Common.Bytes.{Bytes}
use ferretptimize.Image.{Image}
use ferretptimize.Quant.{
  QuantColor, compare_colors, channel_of, median_cut, cut_loop, split, sort_segment, sort_channel,
  cut_at, find_mid, box_recalc, recalc_loop, widest_from,
}
use ferretptimize.Quant.Cutting.{IsPartition, median_cut-IsPartition}
use ferretptimize.Quant.Palette.{trans_alpha, palette_of, limit_target, box_color}
use ferretptimize.Quant.Palette.Alpha.{alpha_cell, reach, trans_alpha_lem}
use ferretptimize.Quant.Palette.Whole.{IsPaletteImage, compress_png_quantized-IsPaletteImage}

unfoldable insert : (QuantColor → QuantColor → ℤ) → QuantColor → List QuantColor → List QuantColor
insert compare x [] = x ∷ []
insert compare x (y ∷ ys) =
    let later = insert compare x ys in if ltb_ℤ (pos 0) (compare x y) then y ∷ later else x ∷ y ∷ ys

unfoldable insertion_sort : (QuantColor → QuantColor → ℤ) → List QuantColor → List QuantColor
insertion_sort compare [] = []
insertion_sort compare (x ∷ xs) = insert compare x (insertion_sort compare xs)

sum-insert :
    (compare : QuantColor → QuantColor → ℤ) (f : QuantColor → ℕ) (x : QuantColor)
    (xs : List QuantColor)
    → sum f (insert compare x xs) ≡ f x + sum f xs
unfolding insert
sum-insert compare f x [] = refl
sum-insert compare f x (y ∷ ys) = elim (Bool-cases (ltb_ℤ (pos 0) (compare x y))) [
  | inl greater ↦ rw greater (omega (arith, sum-insert compare f x ys))
  | inr not_greater ↦ rw not_greater refl
]

sum-insertion_sort :
    (compare : QuantColor → QuantColor → ℤ) (f : QuantColor → ℕ) (xs : List QuantColor)
    → sum f (insertion_sort compare xs) ≡ sum f xs
unfolding insertion_sort
sum-insertion_sort compare f [] = refl
sum-insertion_sort compare f (x ∷ xs) =
    omega
      (arith, sum-insert compare f x (insertion_sort compare xs), sum-insertion_sort compare f xs)

abbrev color : ℕ → ℕ → ℕ → QuantColor
color r a count = record { r = r; g = 0; b = 0; a = a; count = count }

abbrev colors : List QuantColor
colors = color 10 255 1 ∷ color 200 255 2 ∷ color 20 128 1 ∷ color 210 255 4 ∷ []

halves : palette_of insertion_sort colors 2 ≡ color 107 223 4 ∷ color 210 255 4 ∷ []
unfolding palette_of limit_target box_color median_cut cut_loop split sort_segment sort_channel
    cut_at find_mid box_recalc recalc_loop widest_from insertion_sort insert compare_colors
    channel_of
halves = refl

median_cut-IsPartition_example :
    IsPartition insertion_sort sum-insertion_sort colors (median_cut insertion_sort colors 2)
    × (length (median_cut insertion_sort colors 2).boxes ≡ 2)
median_cut-IsPartition_example =
    median_cut-IsPartition insertion_sort sum-insertion_sort colors 2 (omega arith) (omega arith)

trans_alpha_lem_example :
    (trans_alpha (color 10 255 1 ∷ []) ≡ none)
    × (trans_alpha (color 10 255 1 ∷ color 20 128 1 ∷ color 30 255 1 ∷ [])
        ≡ some (
            none
            ∷ some 128
            ∷ take (reach (color 30 255 1 ∷ [])) (map alpha_cell (color 30 255 1 ∷ []))))
trans_alpha_lem_example =
    trans_alpha_lem (color 10 255 1 ∷ []) (color 20 128 1) (color 30 255 1 ∷ []) (omega arith, tt)
      (omega arith)

abbrev two_pixels : Image
two_pixels = record { pixels = 255 ∷ 0 ∷ 0 ∷ 255 ∷ 0 ∷ 0 ∷ 255 ∷ 0 ∷ []; width = 2; height = 1 }

abbrev written : ℕ → ℕ → List QuantColor → Option (List (Option ℕ)) → Bytes → Option Bytes
written width height palette alphas indexed = some indexed

compress_png_quantized-IsPaletteImage_example :
    IsPaletteImage insertion_sort sum-insertion_sort written two_pixels (pos 16) none
compress_png_quantized-IsPaletteImage_example =
    compress_png_quantized-IsPaletteImage insertion_sort sum-insertion_sort written two_pixels
      (pos 16) none (omega arith) (omega arith) refl (ground arith)
