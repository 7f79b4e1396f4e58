-- ===== src/Image/Bounds.antt =====
-- A box of the scan of `fp_trim_image` in src/image_ops.c: what one pixel does to its sides, and where
-- its sides stand.
use ferretptimize.Common.{
  ℕ, ◌^◌, ◌<◌, ◌≡◌, ◌≢◌, ◌∙◌, false, ◌||◌, inl, inr, refl, if◌then◌else◌, arith, Bool-cases,
}
use ferretptimize.Common.Int.{ℤ, pos, negsuc, ◌≤ℤ◌, ltb_ℤ}
use ferretptimize.Image.{Box, signed32, widen}
use mathlib.Core.Path.{subst}

-- The two numbers lie in the box.
abbrev pub IsWithin : Box → ℤ → ℤ → Type 0
IsWithin b x y = (b.min_x ≤ℤ x) × (b.min_y ≤ℤ y) × (x ≤ℤ b.max_x) × (y ≤ℤ b.max_y)

-- The pixel lies in the box, as the scan sees it, and as it is.
abbrev pub IsSeen : Box → ℕ → ℕ → Type 0
IsSeen b x y = IsWithin b (signed32 x) (signed32 y)

abbrev pub IsIn : Box → ℕ → ℕ → Type 0
IsIn b x y = IsWithin b (pos x) (pos y)

pub signed32-small : (n : ℕ) → n < 2 ^ 31 → signed32 n ≡ pos n
signed32-small n h = ground (arith, h)

pub seen-IsIn : (b : Box) (x y : ℕ) → x < 2 ^ 31 → y < 2 ^ 31 → IsSeen b x y → IsIn b x y
seen-IsIn b x y h k seen =
    subst (λ t. IsWithin b (pos x) t) (signed32-small y k)
      (subst (λ t. IsWithin b t (signed32 y)) (signed32-small x h) seen)

-- A side that is where the scan started it has no pixel on its right side.
pub not_started : (m : ℤ) (n x : ℕ) → n < 2 ^ 31 → x < n → m ≤ℤ signed32 x → m ≢ signed32 n
not_started m n x h k le e =
    let below : pos n ≤ℤ pos x =
      subst (λ t. t ≤ℤ pos x) (e ∙ signed32-small n h)
        (subst (λ t. m ≤ℤ t) (signed32-small x (omega arith)) le) in
    absurd (omega (arith, below, k))

pub not_minus_one : (m : ℤ) (x : ℕ) → x < 2 ^ 31 → signed32 x ≤ℤ m → m ≢ negsuc 0
not_minus_one m x h le e =
    let below : pos x ≤ℤ negsuc 0 =
      subst (λ t. pos x ≤ℤ t) e (subst (λ t. t ≤ℤ m) (signed32-small x h) le) in
    absurd (omega (arith, below))

not_below : (low x high : ℤ) → low ≤ℤ x → x ≤ℤ high → ltb_ℤ high low ≡ false
not_below low x high h k = ground (arith, h, k)

pub box_kept :
    (b first : Box) (x y : ℤ)
    → IsWithin b x y
    → (if ltb_ℤ b.max_x b.min_x || ltb_ℤ b.max_y b.min_y then first else b) ≡ b
box_kept b first x y (left, top, right, bottom) =
    rw (not_below b.min_x x b.max_x left right) (rw (not_below b.min_y y b.max_y top bottom) refl)

-- A side after one pixel is on the outer side of the pixel and of all that the side had inside.
lower : (a b : ℤ) → (if ltb_ℤ a b then a else b) ≤ℤ a
lower a b = elim (Bool-cases (ltb_ℤ a b)) [
  | inl e ↦ rw e (omega arith)
  | inr e ↦ rw e (ground (arith, e))
]

lower_keeps : (a b c : ℤ) → b ≤ℤ c → (if ltb_ℤ a b then a else b) ≤ℤ c
lower_keeps a b c h = elim (Bool-cases (ltb_ℤ a b)) [
  | inl e ↦ rw e (ground (arith, e, h))
  | inr e ↦ rw e h
]

upper : (a b : ℤ) → a ≤ℤ (if ltb_ℤ b a then a else b)
upper a b = elim (Bool-cases (ltb_ℤ b a)) [
  | inl e ↦ rw e (omega arith)
  | inr e ↦ rw e (ground (arith, e))
]

upper_keeps : (a b c : ℤ) → c ≤ℤ b → c ≤ℤ (if ltb_ℤ b a then a else b)
upper_keeps a b c h = elim (Bool-cases (ltb_ℤ b a)) [
  | inl e ↦ rw e (ground (arith, e, h))
  | inr e ↦ rw e h
]

pub widen-IsSeen : (b : Box) (x y : ℕ) → IsSeen (widen b (signed32 x) (signed32 y)) x y
widen-IsSeen b x y = (
  lower (signed32 x) b.min_x,
  lower (signed32 y) b.min_y,
  upper (signed32 x) b.max_x,
  upper (signed32 y) b.max_y,
)

pub widen-keeps :
    (b : Box) (x y p q : ℕ) → IsSeen b p q → IsSeen (widen b (signed32 x) (signed32 y)) p q
widen-keeps b x y p q (left, top, right, bottom) = (
  lower_keeps (signed32 x) b.min_x (signed32 p) left,
  lower_keeps (signed32 y) b.min_y (signed32 q) top,
  upper_keeps (signed32 x) b.max_x (signed32 p) right,
  upper_keeps (signed32 y) b.max_y (signed32 q) bottom,
)
