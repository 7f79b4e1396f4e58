-- ===== src/Auth/Issue/Trim.antt =====
-- The two ways to trim a text in src/auth.c and src/server.c.
use ferretptimize.Common.{
  ◌≡◌, ◌∙◌, refl, sym, ap, true, [], ◌∷◌, ◌==◌, length, arith, Bool-cases, inl, inr,
}
use ferretptimize.Common.Bytes.{Bytes, is_space}
use ferretptimize.Auth.Scope.{trim_right}
use ferretptimize.Auth.Fields.{skip_spaces}
use ferretptimize.Auth.Issue.{trim_inplace, trim_token}

nil_of_length : (s : Bytes) → (length s == 0) ≡ true → s ≡ []
nil_of_length [] e = refl
nil_of_length (c ∷ s) e = absurd (ground (arith, e))

pub trim_right-skip_spaces : (s : Bytes) → trim_right (skip_spaces s) ≡ skip_spaces (trim_right s)
unfolding trim_right skip_spaces
trim_right-skip_spaces [] = refl
trim_right-skip_spaces (c ∷ s) = elim (Bool-cases (is_space c)) [
  | inl blank ↦ elim (Bool-cases (length (trim_right s) == 0)) [
    | inl all_blank ↦
        let empty = nil_of_length (trim_right s) all_blank in
        rw (blank, all_blank) (trim_right-skip_spaces s ∙ ap skip_spaces empty)
    | inr some_left ↦ rw (blank, some_left, blank) (trim_right-skip_spaces s)
  ]
  | inr other ↦ rw (other, other) refl
]

-- Both give the text between the white space at its ends.
pub trims_agree : (s : Bytes) → trim_inplace s ≡ trim_token s
unfolding trim_inplace trim_token
trims_agree s = sym (trim_right-skip_spaces s)
