-- ===== src/Server/Multipart/Search.antt =====
-- What `fp_memsearch` of src/server.c finds.
use ferretptimize.Common.{
  ℕ, ◌≤◌, ◌≡◌, ◌∙◌, refl, sym, ap, Bool, true, false, ◌&&◌, none, some, [], ◌∷◌, ◌++◌, append_assoc,
  ◌==◌, length, length-append, arith, Bool-cases, Option-cases, inl, inr,
}
use ferretptimize.Common.Bytes.{Bytes, has_prefix}
use ferretptimize.Server.Multipart.{memsearch}

-- All but the last byte.
unfoldable pub all_but_last : Bytes → Bytes
all_but_last [] = []
all_but_last (c ∷ []) = []
all_but_last (c ∷ d ∷ s) = c ∷ all_but_last (d ∷ s)

last-of :
    (c : ℕ) (s : Bytes)
    → (d : ℕ) × ((c ∷ s ≡ all_but_last (c ∷ s) ++ (d ∷ []))
        × (length (all_but_last (c ∷ s)) ≡ length s))
unfolding all_but_last
last-of c [] = (c, (refl, refl))
last-of c (x ∷ s) =
    let (d, (same, size)) = last-of x s in (d, (ap (◌∷◌ c) same, omega (arith, size)))

has_prefix-long :
    (needle u v : Bytes)
    → length needle ≤ length u
    → has_prefix needle (u ++ v) ≡ has_prefix needle u
unfolding has_prefix
has_prefix-long [] u v h = refl
has_prefix-long (y ∷ ys) [] v h = absurd (omega arith)
has_prefix-long (y ∷ ys) (x ∷ u) v h =
    ap (λ (b : Bool). x == y && b) (has_prefix-long ys u v (omega arith))

pub has_prefix_self : (needle rest : Bytes) → has_prefix needle (needle ++ rest) ≡ true
unfolding has_prefix
has_prefix_self [] rest = refl
has_prefix_self (c ∷ s) rest =
    let same : (c == c) ≡ true = ground arith in rw same (has_prefix_self s rest)

-- The needle does not begin in the text, not even when it stands right behind it.
abbrev pub IsFree : Bytes → Bytes → Type 0
IsFree needle w = memsearch needle (w ++ all_but_last needle) ≡ none

memsearch-none :
    (needle : Bytes) (c : ℕ) (s : Bytes)
    → memsearch needle (c ∷ s) ≡ none
    → (has_prefix needle (c ∷ s) ≡ false) × (memsearch needle s ≡ none)
unfolding memsearch
memsearch-none needle c s e = elim (Bool-cases (has_prefix needle (c ∷ s))) [
  | inl here ↦ absurd (ground (arith, here, e))
  | inr absent ↦ elim (Option-cases (memsearch needle s)) [
    | inl later ↦ (absent, later)
    | inr ((before, at), later) ↦ absurd (ground (arith, absent, later, e))
  ]
]

memsearch-split :
    (front : Bytes) (d : ℕ) (w rest : Bytes)
    → memsearch (front ++ (d ∷ [])) (w ++ front) ≡ none
    → memsearch (front ++ (d ∷ [])) (w ++ (front ++ (d ∷ rest))) ≡ some (w, front ++ (d ∷ rest))
unfolding memsearch
memsearch-split [] d [] rest free = let here = has_prefix_self (d ∷ []) rest in rw here refl
memsearch-split (x ∷ front) d [] rest free =
    let needle = (x ∷ front) ++ (d ∷ []) in
    let here : has_prefix needle ((x ∷ front) ++ (d ∷ rest)) ≡ true =
      ap (has_prefix needle) (sym (append_assoc (x ∷ front) (d ∷ []) rest))
      ∙ has_prefix_self needle rest in
    rw here refl
memsearch-split front d (c ∷ w) rest free =
    let needle = front ++ (d ∷ []) in
    let (absent, later) = memsearch-none needle c (w ++ front) free in
    let far : has_prefix needle (c ∷ (w ++ (front ++ (d ∷ rest)))) ≡ false =
      ap (λ (s : Bytes). has_prefix needle (c ∷ s)) (sym (append_assoc w front (d ∷ rest)))
      ∙ has_prefix-long needle (c ∷ (w ++ front)) (d ∷ rest)
          (omega (arith, length-append front (d ∷ []), length-append w front))
      ∙ absent in
    rw (far, memsearch-split front d w rest later) refl

-- The search finds the needle behind a text that is free of it.
pub memsearch-IsFree :
    (c : ℕ) (needle w rest : Bytes)
    → IsFree (c ∷ needle) w
    → memsearch (c ∷ needle) (w ++ ((c ∷ needle) ++ rest)) ≡ some (w, (c ∷ needle) ++ rest)
memsearch-IsFree c needle w rest free =
    let front = all_but_last (c ∷ needle) in
    let (d, (same, size)) = last-of c needle in
    let whole : (c ∷ needle) ++ rest ≡ front ++ (d ∷ rest) =
      ap (λ (s : Bytes). s ++ rest) same ∙ append_assoc front (d ∷ []) rest in
    let search = λ (s : Bytes). memsearch s (w ++ front) in
    let found = memsearch-split front d w rest (ap search (sym same) ∙ free) in
    ap (λ (s : Bytes). memsearch (c ∷ needle) (w ++ s)) whole
    ∙ ap (λ (s : Bytes). memsearch s (w ++ (front ++ (d ∷ rest)))) same
    ∙ found
    ∙ ap (λ (s : Bytes). some (w, s)) (sym whole)
