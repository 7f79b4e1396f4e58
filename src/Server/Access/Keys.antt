-- ===== src/Server/Access/Keys.antt =====
-- `fp_match_api_key` of src/server.c as a search among the pieces between commas.
use ferretptimize.Common.{
  ℕ, zero, suc, ◌≤◌, ◌≡◌, ◌∙◌, refl, ap, ap₂, sym, Bool, true, false, ◌&&◌, ◌||◌, some, List, [],
  ◌∷◌, ltb, ◌==◌, if◌then◌else◌, length, arith, Bool-cases, inl, inr,
}
use ferretptimize.Common.Bytes.{Bytes, str_eq, is_space}
use ferretptimize.Auth.Fields.{skip_spaces}
use ferretptimize.Auth.Scope.{item_of, from_comma, trim_right, past_comma}
use ferretptimize.Auth.Scope.Items.{split_commas, pieces_after, split_commas-item, from_comma-cons}
use ferretptimize.Auth.Issue.{trim_token}
use ferretptimize.Server.Access.{
  skip_key_gap, candidate_size, is_candidate, key_loop, match_api_key,
}
use ferretptimize.Server.Access.Tokens.{trim_token_again}

-- A piece names the token, white space at its ends aside, and is short enough to be compared.
abbrev pub is_key : Bytes → Bytes → Bool
is_key token piece =
    ltb (length (trim_token piece)) candidate_size && str_eq (trim_token piece) token

unfoldable pub lists_key : Bytes → List Bytes → Bool
lists_key token [] = false
lists_key token (p ∷ ps) = is_key token p || lists_key token ps

length-skip_key_gap : (s : Bytes) → length (skip_key_gap s) ≤ length s
unfolding skip_key_gap
length-skip_key_gap [] = omega arith
length-skip_key_gap (c ∷ s) = ground (arith, length-skip_key_gap s)

-- What the loop compares begins with no white space.
skip_spaces-item : (s : Bytes) → skip_spaces (item_of (skip_key_gap s)) ≡ item_of (skip_key_gap s)
unfolding skip_key_gap item_of skip_spaces
skip_spaces-item [] = refl
skip_spaces-item (c ∷ s) = ground (arith, skip_spaces-item s)

if-or : (a b : Bool) → (if a then true else b) ≡ (a || b)
if-or true b = refl
if-or false b = refl

module _ (t : ℕ) (token : Bytes) where
  some_length :
      (k : Bytes)
      → (ltb 0 (length k)
          && ltb (length k) candidate_size
          && ltb 0 (length k)
          && str_eq k (t ∷ token))
        ≡ (ltb (length k) candidate_size && str_eq k (t ∷ token))
  unfolding str_eq
  some_length [] = refl
  some_length (c ∷ k) = ground arith

  candidate-is_key :
      (piece : Bytes) → is_candidate (t ∷ token) (trim_token piece) ≡ is_key (t ∷ token) piece
  candidate-is_key piece = rw (trim_token_again piece) (some_length (trim_token piece))

  lists-blank :
      (c : ℕ) (s : Bytes)
      → is_space c ≡ true
      → lists_key (t ∷ token) (split_commas (c ∷ s)) ≡ lists_key (t ∷ token) (split_commas s)
  unfolding lists_key split_commas trim_token skip_spaces
  lists-blank c s blank =
      let other : (c == b',') ≡ false = ground (arith, blank) in
      rw other (rw (split_commas-item s) (rw blank refl))

  lists-comma :
      (s : Bytes)
      → lists_key (t ∷ token) (split_commas (b',' ∷ s)) ≡ lists_key (t ∷ token) (split_commas s)
  unfolding lists_key split_commas trim_token trim_right skip_spaces str_eq
  lists-comma s = refl

  lists-skip :
      (s : Bytes)
      → lists_key (t ∷ token) (split_commas s)
        ≡ lists_key (t ∷ token) (split_commas (skip_key_gap s))
  unfolding skip_key_gap
  lists-skip [] = refl
  lists-skip (c ∷ s) = elim (Bool-cases (c == b',')) [
    | inl comma ↦
        let same : c ≡ b',' = ground (arith, comma) in rw same (lists-comma s ∙ lists-skip s)
    | inr other ↦ elim (Bool-cases (is_space c)) [
      | inl blank ↦ rw (other, blank) (lists-blank c s blank ∙ lists-skip s)
      | inr plain ↦ rw (other, plain) refl
    ]
  ]

  lists-item :
      (s : Bytes)
      → lists_key (t ∷ token) (split_commas s)
        ≡ (is_key (t ∷ token) (item_of s) || lists_key (t ∷ token) (pieces_after (from_comma s)))
  unfolding lists_key
  lists-item s = rw (split_commas-item s) refl

  lists-none : lists_key (t ∷ token) (split_commas []) ≡ false
  unfolding lists_key split_commas trim_token trim_right skip_spaces str_eq
  lists-none = refl

  lists-nil : lists_key (t ∷ token) [] ≡ false
  unfolding lists_key
  lists-nil = refl

  key_loop-none : (n : ℕ) → key_loop n (t ∷ token) [] ≡ false
  unfolding key_loop
  key_loop-none zero = refl
  key_loop-none (suc n) = refl

  -- The rounds after the first, from a statement about shorter texts.
  later_rounds :
      (n : ℕ) (s : Bytes)
      → ((u : Bytes)
          → length u ≤ n
          → key_loop n (t ∷ token) u ≡ lists_key (t ∷ token) (split_commas u))
      → length s ≤ suc n
      → key_loop n (t ∷ token) (past_comma (from_comma s))
        ≡ lists_key (t ∷ token) (pieces_after (from_comma s))
  later_rounds n s ih h = go (from_comma s) refl
    where
      go :
          (u : Bytes)
          → from_comma s ≡ u
          → key_loop n (t ∷ token) (past_comma u) ≡ lists_key (t ∷ token) (pieces_after u)
      go [] e = key_loop-none n ∙ sym lists-nil
      go (d ∷ u) e =
          let (comma, shorter) = from_comma-cons s u d e in
          rw comma (ih u (omega (arith, shorter, h)))

  -- One round at a text whose gap is skipped.
  round-lists :
      (n : ℕ) (start : Bytes)
      → skip_spaces (item_of start) ≡ item_of start
      → key_loop n (t ∷ token) (past_comma (from_comma start))
        ≡ lists_key (t ∷ token) (pieces_after (from_comma start))
      → (if length start == 0
          then false
          else if is_candidate (t ∷ token) (trim_right (item_of start))
          then true
          else key_loop n (t ∷ token) (past_comma (from_comma start)))
        ≡ lists_key (t ∷ token) (split_commas start)
  unfolding trim_token
  round-lists n [] plain later = sym lists-none
  round-lists n (c ∷ s) plain later =
      let key : trim_right (item_of (c ∷ s)) ≡ trim_token (item_of (c ∷ s)) =
        ap trim_right (sym plain) in
      let tested = ap (is_candidate (t ∷ token)) key ∙ candidate-is_key (item_of (c ∷ s)) in
      let some_left : (length (c ∷ s) == 0) ≡ false = ground arith in
      rw some_left (
        ap₂ (λ (a b : Bool). if a then true else b) tested later
        ∙ if-or (is_key (t ∷ token) (item_of (c ∷ s)))
            (lists_key (t ∷ token) (pieces_after (from_comma (c ∷ s))))
        ∙ sym (lists-item (c ∷ s)))

  key_loop-lists :
      (n : ℕ) (s : Bytes)
      → length s ≤ n
      → key_loop n (t ∷ token) s ≡ lists_key (t ∷ token) (split_commas s)
  unfolding key_loop
  key_loop-lists zero [] h = sym lists-none
  key_loop-lists zero (c ∷ s) h = absurd (omega arith)
  key_loop-lists (suc n) [] h = sym lists-none
  key_loop-lists (suc n) (c ∷ s) h =
      let start = skip_key_gap (c ∷ s) in
      round-lists n start (skip_spaces-item (c ∷ s))
        (later_rounds n start (key_loop-lists n) (omega (arith, length-skip_key_gap (c ∷ s), h)))
      ∙ sym (lists-skip (c ∷ s))

-- A token is a configured key exactly when a piece of the list between commas, shorter than 256
-- bytes without the white space at its ends, is the token; every key of the list is reached.
pub match_api_key_lem :
    (t : ℕ) (token csv : Bytes)
    → match_api_key (t ∷ token) (some csv) ≡ lists_key (t ∷ token) (split_commas csv)
unfolding match_api_key
match_api_key_lem t token csv = key_loop-lists t token (length csv) csv (omega arith)
