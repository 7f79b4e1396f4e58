-- ===== src/Quant/Palette/Buckets.antt =====
-- The buckets of `fp_compress_png_quantized` in src/compress_png.c.
use ferretptimize.Common.{
  ℕ, zero, suc, ◌+◌, ◌-◌, ◌*◌, ◌^◌, ◌≤◌, ◌<◌, ◌≡◌, refl, ap, true, [], ◌∷◌, ◌==◌, if◌then◌else◌,
  length, All, arith, Bool-cases, inl, inr,
}
use ferretptimize.Common.Bytes.{Bytes, IsByte}
use ferretptimize.Quant.Palette.{
  Sums, no_sums, bucket_count, bucket_of, add_pixel, tally, used_colors,
}

-- A bucket's count does not fall while the pixels left cannot make it wrap.
tally-count :
    (sums : ℕ → Sums) (pixels : Bytes) (i : ℕ)
    → 4 * (sums i).count + length pixels < 2 ^ 34
    → (sums i).count ≤ (tally sums pixels i).count
unfolding tally
tally-count sums (r ∷ g ∷ b ∷ a ∷ pixels) i h =
    let here = bucket_of r g b a in
    let next : ℕ → Sums = λ j. if j == here then add_pixel r g b a (sums j) else sums j in
    let step : ((sums i).count ≤ (next i).count) × ((next i).count ≤ (sums i).count + 1) =
      elim (Bool-cases (i == here)) [
        | inl same ↦ rw same (omega (arith, h), omega (arith, h))
        | inr other ↦ rw other (omega arith, omega arith)
      ] in
    omega (arith, step.0, tally-count next pixels i (omega (arith, step.1, h)))
tally-count sums _ i h = omega arith

used_colors-some :
    (left : ℕ) (sums : ℕ → Sums) (i : ℕ)
    → i < left
    → 1 ≤ (sums (bucket_count - suc i)).count
    → 1 ≤ length (used_colors left sums)
unfolding used_colors
used_colors-some zero sums i h k = absurd (omega arith)
used_colors-some (suc left) sums i h k =
    elim (Bool-cases ((sums (bucket_count - suc left)).count == 0)) [
      | inr counted ↦ rw counted (omega arith)
      | inl none_here ↦
          let other : i < left = elim (Bool-cases (i == left)) [
            | inl same ↦
                let at_left : (sums (bucket_count - suc i)).count
                    ≡ (sums (bucket_count - suc left)).count =
                  ap (λ (n : ℕ). (sums (bucket_count - suc n)).count) (ground (arith, same)) in
                absurd (ground (arith, at_left, none_here, k))
            | inr apart ↦ ground (arith, apart, h)
          ] in
          rw none_here (used_colors-some left sums i other k)
    ]

-- An image with a pixel has a used bucket.
used_colors-pixels :
    (r g b a : ℕ) (pixels : Bytes)
    → All IsByte (r ∷ g ∷ b ∷ a ∷ pixels)
    → length (r ∷ g ∷ b ∷ a ∷ pixels) < 2 ^ 34
    → 1 ≤ length (used_colors bucket_count (tally (λ i. no_sums) (r ∷ g ∷ b ∷ a ∷ pixels)))
unfolding tally
used_colors-pixels r g b a pixels h size =
    let here = bucket_of r g b a in
    let inside : here < bucket_count = omega (arith, h) in
    let first : ℕ → Sums = λ j. if j == here then add_pixel r g b a no_sums else no_sums in
    let counted : (first here).count ≡ 1 =
      let same : (here == here) ≡ true = ground arith in rw same refl in
    let kept = tally-count first pixels here (omega (arith, counted, size)) in
    let back : bucket_count - suc (bucket_count - suc here) ≡ here = omega (arith, inside) in
    used_colors-some bucket_count (tally first pixels) (bucket_count - suc here) (omega arith)
      (rw back (omega (arith, kept, counted)))

pub used_colors-nonempty :
    (pixels : Bytes)
    → All IsByte pixels
    → 4 ≤ length pixels
    → length pixels < 2 ^ 34
    → 1 ≤ length (used_colors bucket_count (tally (λ i. no_sums) pixels))
used_colors-nonempty (r ∷ g ∷ b ∷ a ∷ pixels) h four size = used_colors-pixels r g b a pixels h size
used_colors-nonempty [] h four size = absurd (omega arith)
used_colors-nonempty (r ∷ []) h four size = absurd (omega arith)
used_colors-nonempty (r ∷ g ∷ []) h four size = absurd (omega arith)
used_colors-nonempty (r ∷ g ∷ b ∷ []) h four size = absurd (omega arith)
