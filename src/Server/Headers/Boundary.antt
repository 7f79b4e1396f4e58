-- ===== src/Server/Headers/Boundary.antt =====
-- `fp_find_header_boundary` of src/server.c on a part of a text and on the whole.
use ferretptimize.Common.{
  ℕ, zero, suc, ◌+◌, ◌≤◌, ◌<◌, ◌≡◌, ◌∙◌, refl, sym, none, some, [], ◌∷◌, ◌++◌, length, take,
  take-append, ap, arith, ◌&&◌, ◌==◌, Bool-cases, inl, inr,
}
use native.Mathlib.Decide.{dec_lt}
use ferretptimize.Common.Bytes.{Bytes}
use ferretptimize.Server.Headers.{boundary_from, find_header_boundary}

-- A boundary that is found stays where it is when more bytes follow.
boundary_from-append :
    (at n : ℕ) (u v : Bytes) → boundary_from at u ≡ some n → boundary_from at (u ++ v) ≡ some n
unfolding boundary_from
boundary_from-append at n [] v e = absurd (ground (arith, e))
boundary_from-append at n (a ∷ []) v e = absurd (ground (arith, e))
boundary_from-append at n (a ∷ b ∷ []) v e = absurd (ground (arith, e))
boundary_from-append at n (a ∷ b ∷ c ∷ []) v e = absurd (ground (arith, e))
boundary_from-append at n (a ∷ b ∷ c ∷ d ∷ u) v e =
    elim (Bool-cases (a == 13 && b == 10 && c == 13 && d == 10)) [
      | inl here ↦ rw here (ground (arith, here, e))
      | inr later ↦
          rw later (boundary_from-append (at + 1) n (b ∷ c ∷ d ∷ u) v (ground (arith, later, e)))
    ]

-- The boundary is at the end of four bytes of the text.
pub boundary_from-bounds :
    (at n : ℕ) (s : Bytes) → boundary_from at s ≡ some n → (at + 4 ≤ n) × (n ≤ at + length s)
unfolding boundary_from
boundary_from-bounds at n [] e = absurd (ground (arith, e))
boundary_from-bounds at n (a ∷ []) e = absurd (ground (arith, e))
boundary_from-bounds at n (a ∷ b ∷ []) e = absurd (ground (arith, e))
boundary_from-bounds at n (a ∷ b ∷ c ∷ []) e = absurd (ground (arith, e))
boundary_from-bounds at n (a ∷ b ∷ c ∷ d ∷ u) e =
    elim (Bool-cases (a == 13 && b == 10 && c == 13 && d == 10)) [
      | inl here ↦ ground (arith, here, e)
      | inr later ↦
          let (lo, hi) =
            boundary_from-bounds (at + 1) n (b ∷ c ∷ d ∷ u) (ground (arith, later, e)) in
          (omega (arith, lo), omega (arith, hi))
    ]

-- The boundary is found as soon as the bytes up to it are there.
boundary_from-take :
    (at n k : ℕ) (s : Bytes)
    → boundary_from at s ≡ some n
    → n ≤ at + k
    → boundary_from at (take k s) ≡ some n
unfolding boundary_from
boundary_from-take at n k [] e h = absurd (ground (arith, e))
boundary_from-take at n k (a ∷ []) e h = absurd (ground (arith, e))
boundary_from-take at n k (a ∷ b ∷ []) e h = absurd (ground (arith, e))
boundary_from-take at n k (a ∷ b ∷ c ∷ []) e h = absurd (ground (arith, e))
boundary_from-take at n zero (a ∷ b ∷ c ∷ d ∷ u) e h =
    absurd (omega (arith, h, boundary_from-bounds at n (a ∷ b ∷ c ∷ d ∷ u) e))
boundary_from-take at n (suc zero) (a ∷ b ∷ c ∷ d ∷ u) e h =
    absurd (omega (arith, h, boundary_from-bounds at n (a ∷ b ∷ c ∷ d ∷ u) e))
boundary_from-take at n (suc (suc zero)) (a ∷ b ∷ c ∷ d ∷ u) e h =
    absurd (omega (arith, h, boundary_from-bounds at n (a ∷ b ∷ c ∷ d ∷ u) e))
boundary_from-take at n (suc (suc (suc zero))) (a ∷ b ∷ c ∷ d ∷ u) e h =
    absurd (omega (arith, h, boundary_from-bounds at n (a ∷ b ∷ c ∷ d ∷ u) e))
boundary_from-take at n (suc (suc (suc (suc k)))) (a ∷ b ∷ c ∷ d ∷ u) e h =
    elim (Bool-cases (a == 13 && b == 10 && c == 13 && d == 10)) [
      | inl here ↦ ground (arith, here, e)
      | inr later ↦ rw later (
          boundary_from-take (at + 1) n (suc (suc (suc k))) (b ∷ c ∷ d ∷ u)
            (ground (arith, later, e)) (omega (arith, h)))
    ]

-- A boundary in the part received is that of the whole stream.
pub boundary-part :
    (u v whole : Bytes) (n m : ℕ)
    → u ++ v ≡ whole
    → find_header_boundary whole ≡ some n
    → find_header_boundary u ≡ some m
    → m ≡ n
boundary-part u v whole n m together found here =
    let same : some m ≡ some n =
      sym (boundary_from-append 0 m u v here) ∙ ap find_header_boundary together ∙ found in
    ground (arith, same)

-- Without one, the boundary is still to come.
pub boundary-ahead :
    (u v whole : Bytes) (n : ℕ)
    → u ++ v ≡ whole
    → find_header_boundary whole ≡ some n
    → find_header_boundary u ≡ none
    → length u < n
boundary-ahead u v whole n together found not_yet = elim (dec_lt (length u) n) [
  | yes ahead ↦ ahead
  | no there ↦
      let part : take (length u) whole ≡ u =
        ap (take (length u)) (sym together) ∙ take-append u v (length u) refl in
      let here = boundary_from-take 0 n (length u) whole found (omega (arith, there)) in
      let both : none ≡ some n = sym not_yet ∙ ap find_header_boundary (sym part) ∙ here in
      absurd (ground (arith, both))
]
