-- ===== src/Auth/Scope/Items.antt =====
-- `fp_scope_allows` as a search among the items between commas.
use ferretptimize.Common.{
  ℕ, zero, suc, ◌≤◌, ◌<◌, ◌≡◌, ◌∙◌, refl, ap, sym, Bool, true, false, ◌&&◌, ◌||◌, Option, none,
  some, List, [], ◌∷◌, map, ◌==◌, if◌then◌else◌, length, arith, Bool-cases, inl, inr,
}
use ferretptimize.Common.Bytes.{Bytes, case_eq, str_eq, eq_of_str_eq, to_lower}
use ferretptimize.Auth.Scope.{
  skip_separators, item_of, from_comma, trim_right, past_comma, scope_loop, scope_allows,
}

abbrev add_first : ℕ → List Bytes → List Bytes
add_first c [] = (c ∷ []) ∷ []
add_first c (p ∷ ps) = (c ∷ p) ∷ ps

-- The pieces between the commas.
unfoldable pub split_commas : Bytes → List Bytes
split_commas [] = [] ∷ []
split_commas (c ∷ s) =
    let rest = split_commas s in if c == b',' then [] ∷ rest else add_first c rest

-- A piece without the blanks before it and the white space behind it.
unfoldable pub drop_blanks : Bytes → Bytes
drop_blanks [] = []
drop_blanks (c ∷ s) = let rest = drop_blanks s in if c == b' ' then rest else c ∷ s

abbrev pub trimmed : Bytes → Bytes
trimmed piece = trim_right (drop_blanks piece)

-- One of the pieces is the required scope, in any case of letters.
unfoldable pub names : Bytes → List Bytes → Bool
names required [] = false
names required (p ∷ ps) = case_eq (trimmed p) required || names required ps

-- The pieces behind the comma that the text begins with.
abbrev pub pieces_after : Bytes → List Bytes
pieces_after [] = []
pieces_after (c ∷ rest) = split_commas rest

pub split_commas-item : (s : Bytes) → split_commas s ≡ item_of s ∷ pieces_after (from_comma s)
unfolding split_commas item_of from_comma
split_commas-item [] = refl
split_commas-item (c ∷ s) = ground (arith, split_commas-item s)

length-skip_separators : (s : Bytes) → length (skip_separators s) ≤ length s
unfolding skip_separators
length-skip_separators [] = omega arith
length-skip_separators (c ∷ s) = ground (arith, length-skip_separators s)

-- The text from the comma on begins with it and is no longer.
pub from_comma-cons :
    (s rest : Bytes) (d : ℕ) → from_comma s ≡ d ∷ rest → (d ≡ b',') × (length rest < length s)
unfolding from_comma
from_comma-cons [] rest d e = absurd (cc)
from_comma-cons (c ∷ s) rest d e = elim (Bool-cases (c == b',')) [
  | inl comma ↦ ground (arith, comma, e)
  | inr other ↦ ground (arith, other, from_comma-cons s rest d (ground (arith, other, e)))
]

drop_blanks-skipped :
    (s : Bytes) → drop_blanks (item_of (skip_separators s)) ≡ item_of (skip_separators s)
unfolding skip_separators item_of drop_blanks
drop_blanks-skipped [] = refl
drop_blanks-skipped (c ∷ s) = ground (arith, drop_blanks-skipped s)

length-map : (f : ℕ → ℕ) (s : Bytes) → length (map f s) ≡ length s
length-map f [] = refl
length-map f (c ∷ s) = ap suc (length-map f s)

length-case_eq : (a b : Bytes) → case_eq a b ≡ true → length a ≡ length b
unfolding case_eq
length-case_eq a b e =
    let same = eq_of_str_eq (map to_lower a) (map to_lower b) e in
    omega (arith, ap length same, length-map to_lower a, length-map to_lower b)

module _ (r : ℕ) (required : Bytes) where
  names-blank :
      (s : Bytes)
      → names (r ∷ required) (split_commas (b' ' ∷ s)) ≡ names (r ∷ required) (split_commas s)
  unfolding names split_commas drop_blanks
  names-blank s = rw (split_commas-item s) refl

  names-comma :
      (s : Bytes)
      → names (r ∷ required) (split_commas (b',' ∷ s)) ≡ names (r ∷ required) (split_commas s)
  unfolding names split_commas drop_blanks trim_right case_eq str_eq
  names-comma s = refl

  names-skip :
      (s : Bytes)
      → names (r ∷ required) (split_commas s)
        ≡ names (r ∷ required) (split_commas (skip_separators s))
  unfolding skip_separators
  names-skip [] = refl
  names-skip (c ∷ s) = elim (Bool-cases (c == b' ')) [
    | inl blank ↦
        let same : c ≡ b' ' = ground (arith, blank) in rw same (names-blank s ∙ names-skip s)
    | inr other ↦ elim (Bool-cases (c == b',')) [
      | inl comma ↦
          let same : c ≡ b',' = ground (arith, comma) in rw same (names-comma s ∙ names-skip s)
      | inr plain ↦ rw other (rw plain refl)
    ]
  ]

  names-item :
      (s : Bytes)
      → names (r ∷ required) (split_commas s) ≡ (
          case_eq (trimmed (item_of s)) (r ∷ required)
          || names (r ∷ required) (pieces_after (from_comma s)))
  unfolding names
  names-item s = rw (split_commas-item s) refl

  -- The test of one round.
  same_test :
      (item : Bytes) (later : Bool)
      → (if length item == length (r ∷ required) && case_eq item (r ∷ required)
          then true
          else later)
        ≡ (case_eq item (r ∷ required) || later)
  same_test item later = elim (Bool-cases (case_eq item (r ∷ required))) [
    | inl e ↦
        let same : (length item == length (r ∷ required)) ≡ true =
          ground (arith, length-case_eq item (r ∷ required) e) in
        rw same (rw e refl)
    | inr e ↦ rw e (ground arith)
  ]

  names-nil : names (r ∷ required) [] ≡ false
  unfolding names
  names-nil = refl

  names-none : names (r ∷ required) (split_commas []) ≡ false
  unfolding names split_commas case_eq str_eq trim_right drop_blanks
  names-none = refl

  scope_loop-none : (n : ℕ) → scope_loop n (r ∷ required) [] ≡ false
  unfolding scope_loop
  scope_loop-none zero = refl
  scope_loop-none (suc n) = refl

  -- The rounds after the first, from a statement about shorter texts.
  later_rounds :
      (n : ℕ) (s : Bytes)
      → ((u : Bytes)
          → length u ≤ n
          → scope_loop n (r ∷ required) u ≡ names (r ∷ required) (split_commas u))
      → length s ≤ suc n
      → scope_loop n (r ∷ required) (past_comma (from_comma s))
        ≡ names (r ∷ required) (pieces_after (from_comma s))
  later_rounds n s ih h = go (from_comma s) refl
    where
      go :
          (t : Bytes)
          → from_comma s ≡ t
          → scope_loop n (r ∷ required) (past_comma t) ≡ names (r ∷ required) (pieces_after t)
      go [] e = scope_loop-none n ∙ sym names-nil
      go (d ∷ t) e =
          let (comma, shorter) = from_comma-cons s t d e in
          rw comma (ih t (omega (arith, shorter, h)))

  scope_loop-names :
      (n : ℕ) (s : Bytes)
      → length s ≤ n
      → scope_loop n (r ∷ required) s ≡ names (r ∷ required) (split_commas s)
  unfolding scope_loop
  scope_loop-names zero [] h = sym names-none
  scope_loop-names zero (c ∷ s) h = absurd (omega arith)
  scope_loop-names (suc n) [] h = sym names-none
  scope_loop-names (suc n) (c ∷ s) h =
      let start = skip_separators (c ∷ s) in
      let later = scope_loop n (r ∷ required) (past_comma (from_comma start)) in
      same_test (trim_right (item_of start)) later
      ∙ ap (λ (b : Bool). case_eq (trim_right (item_of start)) (r ∷ required) || b)
          (later_rounds n start (scope_loop-names n)
            (omega (arith, length-skip_separators (c ∷ s), h)))
      ∙ ap
          (λ (item : Bytes).
            case_eq (trim_right item) (r ∷ required)
            || names (r ∷ required) (pieces_after (from_comma start)))
          (sym (drop_blanks-skipped (c ∷ s)))
      ∙ sym (names-item start)
      ∙ sym (names-skip (c ∷ s))

-- With no required scope everything is allowed, and without scopes nothing else. Otherwise the scope
-- is allowed exactly when one of the pieces between commas names it, in any case of letters, with
-- blanks before it and white space behind it.
pub scope_allows_lem :
    (scope : Option Bytes) (r : ℕ) (required : Bytes)
    → (scope_allows scope none ≡ true)
      × (scope_allows scope (some []) ≡ true)
      × (scope_allows none (some (r ∷ required)) ≡ false)
      × ((s : Bytes)
          → scope_allows (some s) (some (r ∷ required)) ≡ names (r ∷ required) (split_commas s))
unfolding scope_allows
scope_allows_lem scope r required =
    (refl, refl, refl, λ s. scope_loop-names r required (length s) s (omega arith))
