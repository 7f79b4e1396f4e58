-- ===== src/Quant/Palette/Alpha.antt =====
-- The transparency that `fp_encode_png_palette` of src/compress_png.c hands to libpng.
use ferretptimize.Common.{
  ℕ, suc, ◌+◌, ◌≤◌, ◌<◌, ◌≡◌, refl, ap, true, false, Option, none, some, List, [], ◌∷◌, ◌++◌, map,
  ltb, ◌==◌, ◌∙◌, if◌then◌else◌, length, take, All, arith, Bool-cases, inl, inr,
}
use ferretptimize.Quant.{QuantColor}
use ferretptimize.Quant.Palette.{trans_loop, trans_alpha}

-- The alpha that an entry should have.
abbrev pub alpha_cell : QuantColor → Option ℕ
alpha_cell c = some (if ltb c.a 255 then c.a else 255)

-- How far the last transparent colour reaches: the number of entries up to it.
abbrev pub reach : List QuantColor → ℕ
reach [] = 0
reach (c ∷ palette) =
    if reach palette == 0 then (if ltb c.a 255 then 1 else 0) else suc (reach palette)

abbrev count_after : ℕ → ℕ → ℕ → ℕ
count_after i num_trans k = if k == 0 then num_trans else i + k

count_after-transparent :
    (i k : ℕ) (n : ℕ)
    → count_after (suc i) (i + 1) k ≡ count_after i n (if k == 0 then 1 else suc k)
count_after-transparent i k n = ground arith

count_after-opaque :
    (i k : ℕ) (n : ℕ) → count_after (suc i) n k ≡ count_after i n (if k == 0 then 0 else suc k)
count_after-opaque i k n = ground arith

trans_loop-seen :
    (palette : List QuantColor) (i num_trans : ℕ)
    → 0 < num_trans
    → num_trans ≤ i
    → ((trans_loop i num_trans palette).0 ≡ map alpha_cell palette)
      × ((trans_loop i num_trans palette).1 ≡ count_after i num_trans (reach palette))
unfolding trans_loop
trans_loop-seen [] i num_trans some_seen h = (refl, refl)
trans_loop-seen (c ∷ palette) i num_trans some_seen h = elim (Bool-cases (ltb c.a 255)) [
  | inl transparent ↦
      let (cells, last) = trans_loop-seen palette (suc i) (i + 1) (omega arith) (omega arith) in
      rw transparent
        (ap (◌∷◌ (some c.a)) cells, last ∙ count_after-transparent i (reach palette) num_trans)
  | inr opaque ↦
      let (cells, last) = trans_loop-seen palette (suc i) num_trans some_seen (omega arith) in
      let seen : ltb 0 num_trans ≡ true = ground (arith, some_seen) in
      rw (opaque, seen)
        (ap (◌∷◌ (some 255)) cells, last ∙ count_after-opaque i (reach palette) num_trans)
]

abbrev unset : QuantColor → Option ℕ
unset c = none

trans_loop-opaque :
    (front rest : List QuantColor) (i : ℕ)
    → All (λ c. 255 ≤ c.a) front
    → trans_loop i 0 (front ++ rest) ≡ (
      map unset front ++ (trans_loop (i + length front) 0 rest).0,
      (trans_loop (i + length front) 0 rest).1,
    )
unfolding trans_loop
trans_loop-opaque [] rest i h = ap (λ (k : ℕ). trans_loop k 0 rest) (omega arith)
trans_loop-opaque (c ∷ front) rest i h =
    let opaque : ltb c.a 255 ≡ false = ground (arith, h.0) in
    let shift : suc i + length front ≡ i + suc (length front) = omega arith in
    let shown : ℕ → List (Option ℕ) × ℕ =
      λ k. (none ∷ (map unset front ++ (trans_loop k 0 rest).0), (trans_loop k 0 rest).1) in
    rw (opaque, trans_loop-opaque front rest (suc i) h.1) (ap shown shift)

trans_loop-none :
    (front : List QuantColor) (i : ℕ) → All (λ c. 255 ≤ c.a) front → (trans_loop i 0 front).1 ≡ 0
unfolding trans_loop
trans_loop-none [] i h = refl
trans_loop-none (c ∷ front) i h =
    let opaque : ltb c.a 255 ≡ false = ground (arith, h.0) in
    rw opaque (trans_loop-none front (suc i) h.1)

take-past :
    {A : Type 0} (xs : List A) (y : A) (ys : List A) (k : ℕ)
    → take (length xs + suc k) (xs ++ (y ∷ ys)) ≡ xs ++ (y ∷ take k ys)
take-past [] y ys k =
    let plain : 0 + suc k ≡ suc k = omega arith in ap (λ (n : ℕ). take n (y ∷ ys)) plain
take-past (x ∷ xs) y ys k =
    let step : suc (length xs) + suc k ≡ suc (length xs + suc k) = omega arith in
    ap (λ (n : ℕ). take n (x ∷ (xs ++ (y ∷ ys)))) step ∙ ap (◌∷◌ x) (take-past xs y ys k)

length-unset : (front : List QuantColor) → length (map unset front) ≡ length front
length-unset [] = refl
length-unset (c ∷ front) = ap suc (length-unset front)

trans_loop-clear :
    (c : QuantColor) (rest : List QuantColor) (i : ℕ)
    → c.a < 255
    → ((trans_loop i 0 (c ∷ rest)).0 ≡ some c.a ∷ map alpha_cell rest)
      × ((trans_loop i 0 (c ∷ rest)).1 ≡ i + suc (reach rest))
unfolding trans_loop
trans_loop-clear c rest i clear =
    let transparent : ltb c.a 255 ≡ true = ground (arith, clear) in
    let (cells, last) = trans_loop-seen rest (suc i) (i + 1) (omega arith) (omega arith) in
    let total : count_after (suc i) (i + 1) (reach rest) ≡ i + suc (reach rest) = ground arith in
    rw transparent (ap (◌∷◌ (some c.a)) cells, last ∙ total)

-- What libpng reads as the alphas of a palette. If every colour is opaque, nothing. Otherwise the cells
-- from the first transparent colour to the last hold their alphas and there are no further cells; but
-- the cells of the opaque colours before the first, which libpng reads as well, have never been set.
pub trans_alpha_lem :
    (front : List QuantColor) (c : QuantColor) (rest : List QuantColor)
    → All (λ x. 255 ≤ x.a) front
    → c.a < 255
    → (trans_alpha front ≡ none)
      × (trans_alpha (front ++ (c ∷ rest))
          ≡ some (map (λ x. none) front ++ (some c.a ∷ take (reach rest) (map alpha_cell rest))))
unfolding trans_alpha
trans_alpha_lem front c rest h clear =
    let m = length front in
    let (cells, last) = trans_loop-clear c rest m clear in
    let tail = trans_loop m 0 (c ∷ rest) in
    let whole = trans_loop-opaque front (c ∷ rest) 0 h in
    let zero_len : 0 + m ≡ m = omega arith in
    let count : tail.1 ≡ length (map unset front) + suc (reach rest) =
      omega (arith, last, length-unset front) in
    let same = take-past (map unset front) (some c.a) (map alpha_cell rest) (reach rest) in
    let called : ltb 0 (length (map unset front) + suc (reach rest)) ≡ true = ground arith in
    (
      rw (trans_loop-none front 0 h) refl,
      rw (trans_alpha, whole, zero_len, count, called, cells) (ap some same),
    )
