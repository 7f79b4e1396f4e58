-- ===== src/Server/Access/Tokens.antt =====
-- The token that src/server.c takes from an Authorization header.
use ferretptimize.Common.{
  ℕ, zero, suc, ◌≤◌, ◌≡◌, ◌∙◌, refl, ap, sym, false, [], ◌∷◌, ◌++◌, All, length, take, length-take,
  take-all, arith, ◌==◌, ◌&&◌, Bool-cases, inl, inr,
}
use ferretptimize.Common.Bytes.{Bytes, codes, is_space, has_prefix}
use ferretptimize.Auth.Fields.{skip_spaces}
use ferretptimize.Auth.Scope.{trim_right}
use ferretptimize.Auth.Issue.{trim_token}
use ferretptimize.Auth.Issue.Trim.{trim_right-skip_spaces}
use ferretptimize.Server.Access.{extract_auth_token}

abbrev pub NoSpace : Bytes → Type 0
NoSpace s = All (λ c. is_space c ≡ false) s

skip_spaces-NoSpace : (s : Bytes) → NoSpace s → skip_spaces s ≡ s
unfolding skip_spaces
skip_spaces-NoSpace [] h = refl
skip_spaces-NoSpace (c ∷ s) h = rw h.0 refl

trim_right-NoSpace : (s : Bytes) → NoSpace s → trim_right s ≡ s
unfolding trim_right
trim_right-NoSpace [] h = refl
trim_right-NoSpace (c ∷ s) h = rw h.0 (ap (◌∷◌ c) (trim_right-NoSpace s h.1))

pub trim_token-NoSpace : (s : Bytes) → NoSpace s → trim_token s ≡ s
unfolding trim_token
trim_token-NoSpace s h = ap trim_right (skip_spaces-NoSpace s h) ∙ trim_right-NoSpace s h

take-NoSpace : (n : ℕ) (s : Bytes) → NoSpace s → NoSpace (take n s)
take-NoSpace zero s h = tt
take-NoSpace (suc n) [] h = tt
take-NoSpace (suc n) (c ∷ s) h = (h.0, take-NoSpace n s h.1)

-- The token of "Bearer " and a text without white space, cut to 255 bytes together.
pub extract_auth_token-cut :
    (token : Bytes) (room : ℕ)
    → NoSpace token
    → 248 ≤ room
    → extract_auth_token room (take 255 (codes "Bearer " ++ token)) ≡ take 248 token
unfolding extract_auth_token skip_spaces has_prefix
extract_auth_token-cut token room h wide =
    let part = take 248 token in
    let plain = take-NoSpace 248 token h in
    ap (λ (t : Bytes). trim_token (take room t)) (skip_spaces-NoSpace part plain)
    ∙ ap trim_token (take-all room part (omega (arith, length-take 248 token, wide)))
    ∙ trim_token-NoSpace part plain

skip_spaces_again : (s : Bytes) → skip_spaces (skip_spaces s) ≡ skip_spaces s
unfolding skip_spaces
skip_spaces_again [] = refl
skip_spaces_again (c ∷ s) = elim (Bool-cases (is_space c)) [
  | inl blank ↦ rw blank (skip_spaces_again s)
  | inr other ↦ rw (other, other) refl
]

trim_right_again : (s : Bytes) → trim_right (trim_right s) ≡ trim_right s
unfolding trim_right
trim_right_again [] = refl
trim_right_again (c ∷ s) = elim (Bool-cases (is_space c && length (trim_right s) == 0)) [
  | inl blank ↦ rw blank refl
  | inr other ↦ rw other (rw (trim_right_again s, other) refl)
]

-- To trim a second time does nothing.
pub trim_token_again : (s : Bytes) → trim_token (trim_token s) ≡ trim_token s
unfolding trim_token
trim_token_again s =
    ap trim_right (sym (trim_right-skip_spaces (skip_spaces s)))
    ∙ trim_right_again (skip_spaces (skip_spaces s))
    ∙ ap trim_right (skip_spaces_again s)
