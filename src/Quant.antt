-- ===== src/Quant.antt =====
-- The median cut of the palette quantizer of src/compress_png.c. `qsort` is a parameter.
pub mod Palette
pub mod Widest
pub mod Cutting
use ferretptimize.Common.{
  ℕ, zero, suc, ◌+◌, ◌-◌, ◌*◌, ◌/◌, ◌%◌, ◌^◌, Bool, true, false, ◌&&◌, ◌||◌, Option, none, some,
  List, [], ◌∷◌, ◌++◌, map, leb, ltb, ◌==◌, if◌then◌else◌, length, get_elem?, set, take, drop, sum,
}
use ferretptimize.Common.Int.{ℤ, pos, negsuc, ◌+ℤ◌}
use ferretptimize.Common.Bytes.{Bytes}

-- `fp_quant_color`.
pub record QuantColor : Type 0 where
  pub r : ℕ
  pub g : ℕ
  pub b : ℕ
  pub a : ℕ
  pub count : ℕ

-- The least and the greatest value of one channel.
pub record Range : Type 0 where
  pub low : ℕ
  pub high : ℕ

-- `fp_color_box`.
pub record ColorBox : Type 0 where
  pub start : ℕ
  pub end : ℕ
  pub r : Range
  pub g : Range
  pub b : Range
  pub a : Range
  pub total : ℕ

-- `if (c->r < rmin) rmin = c->r; if (c->r > rmax) rmax = c->r;`
abbrev pub include : Range → ℕ → Range
include range x = record {
  low = if ltb x range.low then x else range.low;
  high = if ltb range.high x then x else range.high;
}

abbrev pub empty_range : Range
empty_range = record { low = 255; high = 0 }

-- One round of the loop of `fp_quant_box_recalc`.
abbrev pub recalc_step : ColorBox → QuantColor → ColorBox
recalc_step box c = record {
  start = box.start;
  end = box.end;
  r = include box.r c.r;
  g = include box.g c.g;
  b = include box.b c.b;
  a = include box.a c.a;
  total = box.total + c.count;
}

unfoldable pub recalc_loop : ColorBox → List QuantColor → ColorBox
recalc_loop box [] = box
recalc_loop box (c ∷ colors) = recalc_loop (recalc_step box c) colors

-- The elements from `start` on and before `end`.
abbrev pub segment : ℕ → ℕ → List QuantColor → List QuantColor
segment start end colors = take (end - start) (drop start colors)

abbrev pub empty_box : ℕ → ℕ → ColorBox
empty_box start end = record {
  start = start;
  end = end;
  r = empty_range;
  g = empty_range;
  b = empty_range;
  a = empty_range;
  total = 0;
}

-- `fp_quant_box_recalc`.
unfoldable pub box_recalc : ColorBox → List QuantColor → ColorBox
box_recalc box colors =
    if leb box.end box.start
    then box
    else recalc_loop (empty_box box.start box.end) (segment box.start box.end colors)

-- `fp_quant_compare` with the channel that `fp_quant_sort_channel` holds.
abbrev minus : ℕ → ℕ → ℤ
minus x y = if leb y x then pos (x - y) else negsuc (y - x - 1)

unfoldable pub channel_of : ℕ → QuantColor → ℕ
channel_of zero c = c.r
channel_of (suc zero) c = c.g
channel_of (suc (suc zero)) c = c.b
channel_of (suc (suc (suc _))) c = c.a

unfoldable pub compare_colors : ℕ → QuantColor → QuantColor → ℤ
compare_colors channel x y =
    let u = channel_of channel x in
    let v = channel_of channel y in
    if u == v
    then if x.count == y.count then pos 0 else if ltb x.count y.count then pos 1 else negsuc 0
    else minus u v

-- `rmax - rmin` as a byte.
abbrev pub extent : Range → ℕ
extent range = (256 + range.high - range.low) % 256

abbrev larger : ℕ → ℕ → ℕ
larger m x = if ltb m x then x else m

-- `max_range`.
abbrev pub max_range : ColorBox → ℕ
max_range box = larger (larger (larger (extent box.r) (extent box.g)) (extent box.b)) (extent box.a)

-- The loop that looks for the box to cut: from the box at `i` on, with `widest` and `index` so far.
unfoldable pub widest_from : ℕ → ℕ → Option ℕ → List ColorBox → Option ℕ
widest_from i widest index [] = index
widest_from i widest index (box ∷ boxes) =
    let better = leb 2 (box.end - box.start) && leb widest (max_range box) in
    widest_from (suc i) (if better then max_range box else widest)
      (if better then some i else index) boxes

-- The channel to sort by.
unfoldable pub sort_channel : ColorBox → ℕ
sort_channel box =
    let r = extent box.r in
    let g = extent box.g in
    let b = extent box.b in
    let a = extent box.a in
    if leb g r && (leb b r && leb a r)
    then 0
    else if leb r g && (leb b g && leb a g)
    then 1
    else if leb r b && (leb g b && leb a b)
    then 2
    else 3

-- `while (mid < box.end && accum < half)`, on the colours from `mid` on.
unfoldable pub find_mid : ℕ → ℕ → ℕ → List QuantColor → ℕ
find_mid half mid accum [] = mid
find_mid half mid accum (c ∷ colors) =
    let later = find_mid half (suc mid) (accum + c.count) colors in
    if ltb accum half then later else mid

-- The place of the cut, off both ends.
unfoldable pub cut_at : ColorBox → List QuantColor → ℕ
cut_at box colors =
    let mid = find_mid (box.total / 2) box.start 0 (segment box.start box.end colors) in
    if leb mid box.start then box.start + 1 else if leb box.end mid then box.end - 1 else mid

-- `boxes[index].end = mid;`
abbrev pub with_end : ColorBox → ℕ → ColorBox
with_end box mid = record {
  start = box.start;
  end = mid;
  r = box.r;
  g = box.g;
  b = box.b;
  a = box.a;
  total = box.total;
}

abbrev pub zero_range : Range
zero_range = record { low = 0; high = 0 }

abbrev pub new_box : ℕ → ℕ → ColorBox
new_box mid end = record {
  start = mid;
  end = end;
  r = zero_range;
  g = zero_range;
  b = zero_range;
  a = zero_range;
  total = 0;
}

-- `colors` and `boxes`; `box_count` is the length of the latter.
pub record Cut : Type 0 where
  pub colors : List QuantColor
  pub boxes : List ColorBox

module _ (qsort : (QuantColor → QuantColor → ℤ) → List QuantColor → List QuantColor) where
  unfoldable pub sort_segment : ColorBox → List QuantColor → List QuantColor
  sort_segment box colors =
      take box.start colors
      ++ (qsort (compare_colors (sort_channel box)) (segment box.start box.end colors)
          ++ drop box.end colors)

  -- The rest of the round, for the box at `index`.
  unfoldable pub split : Cut → ℕ → ColorBox → Cut
  split cut index box =
      let colors = sort_segment box cut.colors in
      let mid = cut_at box colors in
      let low = box_recalc (with_end box mid) colors in
      let high = box_recalc (new_box mid box.end) colors in
      record { colors = colors; boxes = set cut.boxes index low ++ (high ∷ []) }

  -- `while (box_count < target_colors)`, for `fuel` rounds at most.
  unfoldable pub cut_loop : ℕ → ℕ → Cut → Cut
  cut_loop zero target cut = cut
  cut_loop (suc fuel) target cut = elim (ltb (length cut.boxes) target) [
    | false ↦ cut
    | true ↦ elim (widest_from 0 0 none cut.boxes) [
      | none ↦ cut
      | some index ↦ elim (get_elem? cut.boxes index) [
        | none ↦ cut
        | some box ↦ cut_loop fuel target (split cut index box)
      ]
    ]
  ]

  -- From the first box to the end of the loop, which adds a box in each round.
  unfoldable pub median_cut : List QuantColor → ℕ → Cut
  median_cut colors target =
      let first = box_recalc (new_box 0 (length colors)) colors in
      cut_loop target target (record { colors = colors; boxes = first ∷ [] })
