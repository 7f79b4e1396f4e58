-- ===== src/Server/Multipart/Fuel.antt =====
-- The loop of `fp_parse_multipart` in src/server.c ends.
use ferretptimize.Common.{
  ℕ, zero, suc, ◌-◌, ◌≤◌, ◌<◌, ◌≡◌, refl, ap, some, [], ◌∷◌, ◌++◌, if◌then◌else◌, length, drop,
  length-drop, arith, Bool-cases, Option-cases, inl, inr, ◌⊎◌,
}
use ferretptimize.Common.Bytes.{Bytes, codes, has_prefix}
use ferretptimize.Server.Multipart.{
  FormPart, memsearch, crlf, blank_line, ends_crlf, is_kept, Round, finished, rejected, found,
  read_content, read_header, read_marker, read_round, parse_from,
}

memsearch-length :
    (needle s before at : Bytes) → memsearch needle s ≡ some (before, at) → length at ≤ length s
unfolding memsearch
memsearch-length needle [] before at e = absurd (cc)
memsearch-length needle (c ∷ s) before at e = elim (Bool-cases (has_prefix needle (c ∷ s))) [
  | inl here ↦ ground (arith, here, e)
  | inr absent ↦ elim (Option-cases (memsearch needle s)) [
    | inl later ↦ absurd (ground (arith, absent, later, e))
    | inr ((b, a), later) ↦ ground (arith, absent, later, e, memsearch-length needle s b a later)
  ]
]

-- What a round leaves is no longer than what it was given.
LeavesAtMost : ℕ → Round → Type 0
LeavesAtMost n finished = Unit
LeavesAtMost n rejected = Unit
LeavesAtMost n (found part next) = length next ≤ n

read_content-LeavesAtMost :
    (line header s : Bytes) (n : ℕ) → length s ≤ n → LeavesAtMost n (read_content line header s)
unfolding read_content LeavesAtMost
read_content-LeavesAtMost line header s n h = elim (Option-cases (memsearch line s)) [
  | inl e ↦ rw (read_content, e) tt
  | inr ((content, next), e) ↦ elim (Bool-cases (ends_crlf (blank_line ++ content))) [
    | inl ends ↦
        rw (read_content, e, ends) (omega (arith, memsearch-length line s content next e, h))
    | inr ragged ↦ rw (read_content, e, ragged) tt
  ]
]

read_header-LeavesAtMost :
    (line s : Bytes) (n : ℕ) → length s ≤ n → LeavesAtMost n (read_header line s)
unfolding read_header LeavesAtMost
read_header-LeavesAtMost line s n h = elim (Option-cases (memsearch blank_line s)) [
  | inl e ↦ rw (read_header, e) tt
  | inr ((header, rest), e) ↦
      rw (read_header, e)
        (read_content-LeavesAtMost line header (drop 4 rest) n
          (omega (arith, memsearch-length blank_line s header rest e, length-drop 4 rest, h)))
]

read_marker-LeavesAtMost :
    (line s : Bytes) (n : ℕ) → length s ≤ n → LeavesAtMost n (read_marker line s)
unfolding read_marker LeavesAtMost
read_marker-LeavesAtMost line s n h = elim (Bool-cases (has_prefix (codes "--") s)) [
  | inl last ↦ rw (read_marker, last) tt
  | inr more ↦ elim (Bool-cases (has_prefix crlf s)) [
    | inl line_end ↦
        rw (read_marker, more, line_end)
          (read_header-LeavesAtMost line (drop 2 s) n (omega (arith, length-drop 2 s, h)))
    | inr ragged ↦ rw (read_marker, more, ragged) tt
  ]
]

read_round-LeavesAtMost :
    (c : ℕ) (l s : Bytes) (n : ℕ) → length s ≤ suc n → LeavesAtMost n (read_round (c ∷ l) s)
unfolding read_round LeavesAtMost
read_round-LeavesAtMost c l s n h = elim (Option-cases (memsearch (c ∷ l) s)) [
  | inl e ↦ rw (read_round, e) tt
  | inr ((before, at), e) ↦
      rw (read_round, e)
        (read_marker-LeavesAtMost (c ∷ l) (drop (length (c ∷ l)) at) n (
          omega
            (arith, memsearch-length (c ∷ l) s before at e, length-drop (length (c ∷ l)) at, h)))
]

Round-cases :
    (r : Round)
    → (r ≡ finished) ⊎ (r ≡ rejected) ⊎ ((part : FormPart) × (next : Bytes) × (r ≡ found part next))
Round-cases finished = inl refl
Round-cases rejected = inr (inl refl)
Round-cases (found part next) = inr (inr (part, next, refl))

leaves :
    (n : ℕ) (r : Round) (part : FormPart) (next : Bytes)
    → LeavesAtMost n r
    → r ≡ found part next
    → length next ≤ n
unfolding LeavesAtMost
leaves n finished part next h e = absurd (cc)
leaves n rejected part next h e = absurd (cc)
leaves n (found part s) part' next h e =
    let same : s ≡ next = cc in omega (arith, h, ap length same)

-- As many rounds as the body has bytes, and one more, are enough: with more the result is the same.
pub parse_from-enough :
    (c : ℕ) (l s : Bytes) (fuel more room : ℕ)
    → length s < fuel
    → length s < more
    → parse_from fuel (c ∷ l) room s ≡ parse_from more (c ∷ l) room s
unfolding parse_from
parse_from-enough c l s zero more room h k = absurd (omega arith)
parse_from-enough c l s (suc fuel) zero room h k = absurd (omega arith)
parse_from-enough c l [] (suc fuel) (suc more) room h k =
    let none_left : read_round (c ∷ l) [] ≡ finished = unfold read_round memsearch in refl in
    rw (parse_from, none_left) refl
parse_from-enough c l (x ∷ s) (suc fuel) (suc more) room h k =
    let line = c ∷ l in
    elim (Round-cases (read_round line (x ∷ s))) [
      | inl e ↦ rw (parse_from, e) refl
      | inr (inl e) ↦ rw (parse_from, e) refl
      | inr (inr (part, next, e)) ↦
          let shorter =
            leaves (length s) (read_round line (x ∷ s)) part next
              (read_round-LeavesAtMost c l (x ∷ s) (length s) (omega arith)) e in
          let rest =
            parse_from-enough c l next fuel more (if is_kept part room then room - 1 else room)
              (omega (arith, shorter, h)) (omega (arith, shorter, k)) in
          rw (parse_from, e, rest) refl
    ]
