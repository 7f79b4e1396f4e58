-- ===== src/Quant/Palette/Nearest.antt =====
-- The lookup of a pixel in the palette, in `fp_compress_png_quantized` of src/compress_png.c.
use ferretptimize.Common.{
  ℕ, zero, suc, ◌+◌, ◌-◌, ◌≤◌, ◌<◌, ◌≡◌, ◌⊎◌, inl, inr, refl, some, List, [], ◌∷◌, leb, ltb,
  if◌then◌else◌, length, get_elem?, take, All, arith, Bool-cases, ◌%◌,
}
use mathlib.Core.Path.{subst}
use native.Mathlib.Nat.{le_trans, mul-le-mul_left, mul-le-mul_right}
use ferretptimize.Common.Bytes.{Bytes, IsByte}
use ferretptimize.Quant.{QuantColor}
use ferretptimize.Quant.Palette.{
  distance, square_between, nearest_from, nearest, max_u32, index_pixels,
}

-- The entry at `k` is the first of those at the least distance.
pub record IsClosest (dist : QuantColor → ℕ) (palette : List QuantColor) (k : ℕ) : Type 0 where
  pub color : QuantColor
  pub here : get_elem? palette k ≡ some color
  pub least : All (λ c. dist color ≤ dist c) palette
  pub first : All (λ c. dist color < dist c) (take k palette)

All-weaken :
    {A : Type 0} (f : A → ℕ) (m n : ℕ) (xs : List A)
    → m ≤ n
    → All (λ x. n ≤ f x) xs
    → All (λ x. m ≤ f x) xs
All-weaken f m n [] h a = tt
All-weaken f m n (x ∷ xs) h a = (omega (arith, h, a.0), All-weaken f m n xs h a.1)

nearest_from-IsClosest :
    (dist : QuantColor → ℕ) (palette : List QuantColor) (p best best_dist : ℕ)
    → let k = nearest_from dist p best best_dist palette in
      ((k ≡ best) × All (λ c. best_dist ≤ dist c) palette)
      ⊎ ((j : ℕ) × (k ≡ p + j)
          × ((found : IsClosest dist palette j) × (dist found.color < best_dist)))
unfolding nearest_from
nearest_from-IsClosest dist [] p best best_dist = inl (refl, tt)
nearest_from-IsClosest dist (c ∷ palette) p best best_dist =
    elim (Bool-cases (ltb (dist c) best_dist)) [
      | inl closer ↦ rw closer (elim (nearest_from-IsClosest dist palette (suc p) p (dist c)) [
        | inl (same, others) ↦ inr (
          0,
          omega (arith, same),
          (
            record { color = c; here = refl; least = (omega arith, others); first = tt },
            ground (arith, closer),
          ),
        )
        | inr (j, same, (found, nearer)) ↦ inr (
          suc j,
          omega (arith, same),
          (
            record {
              color = found.color;
              here = found.here;
              least = (omega (arith, nearer), found.least);
              first = (nearer, found.first);
            },
            ground (arith, closer, nearer),
          ),
        )
      ])
      | inr further ↦
          rw further (elim (nearest_from-IsClosest dist palette (suc p) best best_dist) [
            | inl (same, others) ↦ inl (same, (ground (arith, further), others))
            | inr (j, same, (found, nearer)) ↦ inr (
              suc j,
              omega (arith, same),
              (
                record {
                  color = found.color;
                  here = found.here;
                  least = (ground (arith, further, nearer), found.least);
                  first = (ground (arith, further, nearer), found.first);
                },
                nearer,
              ),
            )
          ])
    ]

nearest-IsClosest :
    (dist : QuantColor → ℕ) (c : QuantColor) (palette : List QuantColor)
    → dist c < max_u32
    → IsClosest dist (c ∷ palette) (nearest dist (c ∷ palette))
nearest-IsClosest dist c palette h = elim (nearest_from-IsClosest dist (c ∷ palette) 0 0 max_u32) [
  | inl (same, others) ↦ absurd (omega (arith, h, others.0))
  | inr (j, same, (found, nearer)) ↦
      subst (IsClosest dist (c ∷ palette)) (omega (arith, same)) found
]

get_elem?-bound :
    {A : Type 0} (xs : List A) (k : ℕ) (x : A) → get_elem? xs k ≡ some x → k < length xs
get_elem?-bound [] k x e = absurd (cc)
get_elem?-bound (y ∷ ys) zero x e = omega arith
get_elem?-bound (y ∷ ys) (suc k) x e = omega (arith, get_elem?-bound ys k x e)

abbrev pub IsByteColor : QuantColor → Type 0
IsByteColor c = IsByte c.r × IsByte c.g × IsByte c.b × IsByte c.a

square_between-bound : (x y : ℕ) → x < 256 → y < 256 → square_between x y ≤ 65025
square_between-bound x y hx hy =
    let d = if leb x y then y - x else x - y in
    let small : d ≤ 255 = ground arith in
    le_trans (mul-le-mul_right d small) (mul-le-mul_left 255 small)

-- One index for each pixel, that of the first palette colour at the least distance.
unfoldable pub AreClosest : List QuantColor → Bytes → Bytes → Type 0
AreClosest palette (r ∷ g ∷ b ∷ a ∷ pixels) (k ∷ indexed) =
    IsClosest (distance r g b a) palette k × AreClosest palette pixels indexed
AreClosest palette (r ∷ g ∷ b ∷ a ∷ pixels) [] = ⊥
AreClosest palette _ indexed = length indexed ≡ 0

pub index_pixels-AreClosest :
    (c : QuantColor) (palette : List QuantColor) (pixels : Bytes)
    → All IsByte pixels
    → IsByteColor c
    → length (c ∷ palette) ≤ 256
    → AreClosest (c ∷ palette) pixels (index_pixels (c ∷ palette) pixels)
unfolding AreClosest index_pixels
index_pixels-AreClosest c palette [] h hc size = refl
index_pixels-AreClosest c palette (r ∷ []) h hc size = refl
index_pixels-AreClosest c palette (r ∷ g ∷ []) h hc size = refl
index_pixels-AreClosest c palette (r ∷ g ∷ b ∷ []) h hc size = refl
index_pixels-AreClosest c palette (r ∷ g ∷ b ∷ a ∷ pixels) h hc size =
    let dist = distance r g b a in
    let found : IsClosest dist (c ∷ palette) (nearest dist (c ∷ palette)) =
      nearest-IsClosest dist c palette (
        omega (
          arith,
          square_between-bound r c.r h.0 hc.0,
          square_between-bound g c.g h.1.0 hc.1,
          square_between-bound b c.b h.1.1.0 hc.2,
          square_between-bound a c.a h.1.1.1.0 hc.3,
        )) in
    let small : nearest dist (c ∷ palette) % 256 ≡ nearest dist (c ∷ palette) = omega (
      arith,
      size,
      get_elem?-bound (c ∷ palette) (nearest dist (c ∷ palette)) found.color found.here,
    ) in
    (rw small found, index_pixels-AreClosest c palette pixels h.1.1.1.1 hc size)
