-- ===== src/Quant/Widest.antt =====
-- The search of `fp_compress_png_quantized` in src/compress_png.c for the box to cut.
use ferretptimize.Common.{
  ℕ, zero, suc, ◌+◌, ◌-◌, ◌≤◌, ◌<◌, ◌≡◌, ◌⊎◌, inl, inr, refl, ◌&&◌, Option, none, some, List, [],
  ◌∷◌, leb, if◌then◌else◌, get_elem?, All, arith, Bool-cases,
}
use ferretptimize.Quant.{ColorBox, max_range, widest_from}

abbrev pub span : ColorBox → ℕ
span box = box.end - box.start

-- If no box is found, none has two colours.
pub widest-none :
    (boxes : List ColorBox) (i widest : ℕ) (index : Option ℕ)
    → widest_from i widest index boxes ≡ none
    → (index ≡ none) × (widest ≡ 0 → All (λ box. span box < 2) boxes)
unfolding widest_from
widest-none [] i widest index e = (e, λ z. tt)
widest-none (box ∷ boxes) i widest index e =
    elim (Bool-cases (leb 2 (span box) && leb widest (max_range box))) [
      | inl better ↦
          let (taken, rest) =
            widest-none boxes (suc i) (max_range box) (some i) (ground (arith, better, e)) in
          absurd (cc)
      | inr skipped ↦
          let (same, rest) = widest-none boxes (suc i) widest index (ground (arith, skipped, e)) in
          (same, λ z. (ground (arith, skipped, z), rest z))
    ]

-- The index that is found is that of a box with two colours or more.
pub record Found (boxes : List ColorBox) (k : ℕ) : Type 0 where
  pub box : ColorBox
  pub here : get_elem? boxes k ≡ some box
  pub wide : 2 ≤ span box

pub widest-some :
    (boxes : List ColorBox) (i widest : ℕ) (index : Option ℕ) (k : ℕ)
    → widest_from i widest index boxes ≡ some k
    → (index ≡ some k) ⊎ ((j : ℕ) × (k ≡ i + j) × Found boxes j)
unfolding widest_from
widest-some [] i widest index k e = inl e
widest-some (box ∷ boxes) i widest index k e =
    let better = leb 2 (span box) && leb widest (max_range box) in
    elim (widest-some boxes (suc i) (if better then max_range box else widest)
      (if better then some i else index) k e) [
        | inl before ↦ elim (Bool-cases better) [
          | inl taken ↦ inr (
            zero,
            ground (arith, taken, before),
            record { box = box; here = refl; wide = ground (arith, taken) },
          )
          | inr skipped ↦ inl (ground (arith, skipped, before))
        ]
        | inr (j, same, found) ↦ inr (
          suc j,
          omega (arith, same),
          record { box = found.box; here = found.here; wide = found.wide },
        )
      ]
