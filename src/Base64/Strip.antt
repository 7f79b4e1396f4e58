-- ===== src/Base64/Strip.antt =====
-- How padding is put on and taken off, group by group.
use ferretptimize.Common.{ℕ, ◌≡◌, refl, false, [], ◌∷◌, ◌==◌, arith}
use ferretptimize.Common.Bytes.{Bytes}
use ferretptimize.Base64.{pad, to_url, from_url, strip, padded}

pub padded-group :
    (p q r s : ℕ) (rest : Bytes)
    → padded (p ∷ q ∷ r ∷ s ∷ rest)
      ≡ from_url p ∷ from_url q ∷ from_url r ∷ from_url s ∷ padded rest
unfolding padded
padded-group p q r s rest = ground arith

pub strip-group :
    (p q r s : ℕ) (rest : Bytes)
    → (s == pad) ≡ false
    → strip (p ∷ q ∷ r ∷ s ∷ rest) ≡ p ∷ q ∷ r ∷ s ∷ strip rest
unfolding strip
strip-group p q r s rest h = ground arith

pub from_url-pad : from_url pad ≡ pad
unfolding from_url
from_url-pad = refl

pub to_url-pad : to_url pad ≡ pad
unfolding to_url
to_url-pad = refl

pub padded-nil : padded [] ≡ []
unfolding padded
padded-nil = refl

-- Two or three symbols are filled up to a group.
pub padded_two : (p q : ℕ) → padded (p ∷ q ∷ []) ≡ from_url p ∷ from_url q ∷ pad ∷ pad ∷ []
unfolding padded
padded_two p q = refl

pub padded_three :
    (p q r : ℕ) → padded (p ∷ q ∷ r ∷ []) ≡ from_url p ∷ from_url q ∷ from_url r ∷ pad ∷ []
unfolding padded
padded_three p q r = refl

pub strip_two : (p q : ℕ) → (q == pad) ≡ false → strip (p ∷ q ∷ pad ∷ pad ∷ []) ≡ p ∷ q ∷ []
unfolding strip
strip_two p q h = ground arith

pub strip_three : (p q r : ℕ) → (r == pad) ≡ false → strip (p ∷ q ∷ r ∷ pad ∷ []) ≡ p ∷ q ∷ r ∷ []
unfolding strip
strip_three p q r h = ground arith
