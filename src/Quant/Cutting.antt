-- ===== src/Quant/Cutting.antt =====
-- The boxes of the median cut in src/compress_png.c part the array of colours among them.
use ferretptimize.Common.{
  ℕ, zero, suc, ◌+◌, ◌-◌, ◌/◌, ◌≤◌, ◌<◌, ◌≡◌, ◌∙◌, inl, inr, refl, ap, ◌&&◌, none, some, List, [],
  ◌∷◌, ◌++◌, leb, ltb, if◌then◌else◌, length, get_elem?, set, take, drop, sum, sum-append, sum-set,
  length-append, length-set, All, All-append, arith, Bool-cases, Option-cases,
}
use mathlib.Core.Path.{subst}
use mathlib.Core.Option.{some_inj}
use ferretptimize.Common.Int.{ℤ}
use ferretptimize.Quant.{
  QuantColor, ColorBox, Cut, recalc_step, recalc_loop, box_recalc, segment, empty_box, with_end,
  new_box, widest_from, sort_channel, compare_colors, find_mid, cut_at, sort_segment, split,
  cut_loop, median_cut,
}
use ferretptimize.Quant.Widest.{span, widest-none, widest-some, Found}

-- Whether the box holds the colour at `i`.
abbrev pub inside : ℕ → ColorBox → ℕ
inside i box = if leb box.start i && ltb i box.end then 1 else 0

recalc_loop-ends :
    (box : ColorBox) (colors : List QuantColor)
    → ((recalc_loop box colors).start ≡ box.start) × ((recalc_loop box colors).end ≡ box.end)
unfolding recalc_loop
recalc_loop-ends box [] = (refl, refl)
recalc_loop-ends box (c ∷ colors) = recalc_loop-ends (recalc_step box c) colors

box_recalc-ends :
    (box : ColorBox) (colors : List QuantColor)
    → ((box_recalc box colors).start ≡ box.start) × ((box_recalc box colors).end ≡ box.end)
unfolding box_recalc
box_recalc-ends box colors = elim (Bool-cases (leb box.end box.start)) [
  | inl empty ↦ rw empty (refl, refl)
  | inr some_colors ↦
      rw some_colors
        (recalc_loop-ends (empty_box box.start box.end) (segment box.start box.end colors))
]

cut_at-inside :
    (box : ColorBox) (colors : List QuantColor)
    → 2 ≤ span box
    → (box.start < cut_at box colors) × (cut_at box colors < box.end)
unfolding cut_at
cut_at-inside box colors h =
    let mid = find_mid (box.total / 2) box.start 0 (segment box.start box.end colors) in
    elim (Bool-cases (leb mid box.start)) [
      | inl low ↦ rw low (omega arith, omega arith)
      | inr above ↦ elim (Bool-cases (leb box.end mid)) [
        | inl high ↦ rw (above, high) (omega arith, omega arith)
        | inr between ↦ rw (above, between) (ground (arith, above), ground (arith, between))
      ]
    ]

sum-take-drop :
    {A : Type 0} (f : A → ℕ) (n : ℕ) (xs : List A)
    → sum f (take n xs) + sum f (drop n xs) ≡ sum f xs
sum-take-drop f zero xs = omega arith
sum-take-drop f (suc n) [] = omega arith
sum-take-drop f (suc n) (x ∷ xs) = omega (arith, sum-take-drop f n xs)

drop-nil : {A : Type 0} (n : ℕ) → drop {A = A} n [] ≡ []
drop-nil zero = refl
drop-nil (suc n) = refl

drop-drop : {A : Type 0} (m n e : ℕ) (xs : List A) → m + n ≡ e → drop n (drop m xs) ≡ drop e xs
drop-drop zero n e xs h = ap (λ (k : ℕ). drop k xs) (omega (arith, h))
drop-drop (suc m) n zero xs h = absurd (omega (arith, h))
drop-drop (suc m) n (suc e) [] h = drop-nil n
drop-drop (suc m) n (suc e) (x ∷ xs) h = drop-drop m n e xs (omega (arith, h))

length-sum : {A : Type 0} (xs : List A) → sum (λ x. 1) xs ≡ length xs
length-sum [] = refl
length-sum (x ∷ xs) = omega (arith, length-sum xs)

All-set :
    {A : Type 0} (P : A → Type 0) (xs : List A) (i : ℕ) (v : A)
    → All P xs
    → P v
    → All P (set xs i v)
All-set P [] i v h p = tt
All-set P (x ∷ xs) zero v h p = (p, h.1)
All-set P (x ∷ xs) (suc i) v h p = (h.0, All-set P xs i v h.1 p)

All-get :
    {A : Type 0} (P : A → Type 0) (xs : List A) (i : ℕ) (x : A)
    → All P xs
    → get_elem? xs i ≡ some x
    → P x
All-get P [] i x h e = absurd (cc)
All-get P (y ∷ ys) zero x h e = subst P (some_inj.0 e) h.0
All-get P (y ∷ ys) (suc i) x h e = All-get P ys i x h.1 e

single-spans :
    (boxes : List ColorBox)
    → All (λ b. b.start < b.end) boxes
    → All (λ b. span b < 2) boxes
    → sum span boxes ≡ length boxes
single-spans [] some_colors narrow = refl
single-spans (b ∷ boxes) some_colors narrow =
    omega (arith, single-spans boxes some_colors.1 narrow.1, some_colors.0, narrow.0)

module _ (qsort : (QuantColor → QuantColor → ℤ) → List QuantColor → List QuantColor)
    (qsort-sum : (compare : QuantColor → QuantColor → ℤ) (f : QuantColor → ℕ) (xs : List QuantColor)
      → sum f (qsort compare xs) ≡ sum f xs) where
  sum-sort_segment :
      (box : ColorBox) (colors : List QuantColor) (f : QuantColor → ℕ)
      → box.start < box.end
      → sum f (sort_segment qsort box colors) ≡ sum f colors
  unfolding sort_segment
  sum-sort_segment box colors f h =
      let middle = segment box.start box.end colors in
      let sorted = qsort (compare_colors (sort_channel box)) middle in
      let rest : drop (box.end - box.start) (drop box.start colors) ≡ drop box.end colors =
        drop-drop box.start (box.end - box.start) box.end colors (omega arith) in
      omega (
        arith,
        sum-append f (take box.start colors) (sorted ++ drop box.end colors),
        sum-append f sorted (drop box.end colors),
        qsort-sum (compare_colors (sort_channel box)) f middle,
        sum-take-drop f (box.end - box.start) (drop box.start colors),
        ap (sum f) rest,
        sum-take-drop f box.start colors,
      )

  -- The boxes hold each of the colours in just one of them, each box has a colour, and the array holds
  -- the given colours in some order.
  pub record IsPartition (given : List QuantColor) (cut : Cut) : Type 0 where
    pub nonempty : All (λ box. box.start < box.end) cut.boxes
    pub covered : (i : ℕ) → sum (inside i) cut.boxes ≡ (if ltb i (length given) then 1 else 0)
    pub spans : sum span cut.boxes ≡ length given
    pub same_colors : (f : QuantColor → ℕ) → sum f cut.colors ≡ sum f given

  split-IsPartition :
      (given : List QuantColor) (cut : Cut) (index : ℕ) (box : ColorBox)
      → get_elem? cut.boxes index ≡ some box
      → 2 ≤ span box
      → IsPartition given cut
      → IsPartition given (split qsort cut index box)
  unfolding split
  split-IsPartition given cut index box here wide h =
      let colors = sort_segment qsort box cut.colors in
      let mid = cut_at box colors in
      let (above, below) = cut_at-inside box colors wide in
      let low = box_recalc (with_end box mid) colors in
      let high = box_recalc (new_box mid box.end) colors in
      let (low_start, low_end) = box_recalc-ends (with_end box mid) colors in
      let (high_start, high_end) = box_recalc-ends (new_box mid box.end) colors in
      let two_sums = λ (f : ColorBox → ℕ). sum-append f (set cut.boxes index low) (high ∷ []) in
      record {
        nonempty =
            All-append (λ b. b.start < b.end) (set cut.boxes index low) (high ∷ [])
              (All-set (λ b. b.start < b.end) cut.boxes index low h.nonempty
                (omega (arith, low_start, low_end, above)))
              (omega (arith, high_start, high_end, below), tt);
        covered = λ i. ground (
          arith,
          h.covered i,
          two_sums (inside i),
          sum-set (inside i) cut.boxes index box low here,
          low_start,
          low_end,
          high_start,
          high_end,
          above,
          below,
        );
        spans = omega (
          arith,
          h.spans,
          two_sums span,
          sum-set span cut.boxes index box low here,
          low_start,
          low_end,
          high_start,
          high_end,
          above,
          below,
        );
        same_colors =
            λ f. sum-sort_segment box cut.colors f (omega (arith, above, below)) ∙ h.same_colors f;
      }

  length-split :
      (cut : Cut) (index : ℕ) (box : ColorBox)
      → length (split qsort cut index box).boxes ≡ length cut.boxes + 1
  unfolding split
  length-split cut index box =
      let colors = sort_segment qsort box cut.colors in
      let low = box_recalc (with_end box (cut_at box colors)) colors in
      omega (
        arith,
        length-append (set cut.boxes index low)
            (box_recalc (new_box (cut_at box colors) box.end) colors ∷ []),
        length-set cut.boxes index low,
      )

  -- While fewer boxes than colours are made, some box has two colours.
  finds-box :
      (given : List QuantColor) (cut : Cut)
      → IsPartition given cut
      → length cut.boxes < length given
      → (k : ℕ) × (widest_from 0 0 none cut.boxes ≡ some k) × Found cut.boxes k
  finds-box given cut h more = elim (Option-cases (widest_from 0 0 none cut.boxes)) [
    | inl e ↦
        let narrow = (widest-none cut.boxes 0 0 none e).1 refl in
        absurd (omega (arith, single-spans cut.boxes h.nonempty narrow, h.spans, more))
    | inr (k, e) ↦ elim (widest-some cut.boxes 0 0 none k e) [
      | inl before ↦ absurd (cc)
      | inr (j, same, found) ↦ (k, e, subst (Found cut.boxes) (omega (arith, same)) found)
    ]
  ]

  cut_loop-IsPartition :
      (given : List QuantColor) (fuel target : ℕ) (cut : Cut)
      → IsPartition given cut
      → length cut.boxes ≤ target
      → target ≤ length given
      → target ≤ length cut.boxes + fuel
      → IsPartition given (cut_loop qsort fuel target cut)
        × (length (cut_loop qsort fuel target cut).boxes ≡ target)
  unfolding cut_loop
  cut_loop-IsPartition given zero target cut h below room enough = (h, omega arith)
  cut_loop-IsPartition given (suc fuel) target cut h below room enough =
      elim (Bool-cases (ltb (length cut.boxes) target)) [
        | inr done ↦ rw (cut_loop, done) (h, ground (arith, done))
        | inl more ↦
            let (k, e, found) = finds-box given cut h (ground (arith, more)) in
            let next = split-IsPartition given cut k found.box found.here found.wide h in
            let size = length-split cut k found.box in
            rw (cut_loop, more, e, found.here)
              (cut_loop-IsPartition given fuel target (split qsort cut k found.box) next
                (ground (arith, size, more)) room (omega (arith, size)))
      ]

  -- The loop ends with as many boxes as are asked for, up to one for each colour: `target` rounds are
  -- enough, and the boxes part the colours among them.
  pub median_cut-IsPartition :
      (colors : List QuantColor) (target : ℕ)
      → 1 ≤ target
      → target ≤ length colors
      → IsPartition colors (median_cut qsort colors target)
        × (length (median_cut qsort colors target).boxes ≡ target)
  unfolding median_cut
  median_cut-IsPartition colors target some_boxes room =
      let (start, stop) = box_recalc-ends (new_box 0 (length colors)) colors in
      let first : Cut = record {
        colors = colors;
        boxes = box_recalc (new_box 0 (length colors)) colors ∷ [];
      } in
      let whole : IsPartition colors first = record {
        nonempty = (omega (arith, start, stop), tt);
        covered = λ i. ground (arith, start, stop);
        spans = omega (arith, start, stop);
        same_colors = λ f. refl;
      } in
      cut_loop-IsPartition colors target target first whole some_boxes room (omega arith)
