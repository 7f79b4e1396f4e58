-- ===== src/Worker/Best.antt =====
-- `fp_worker_png_more` of src/worker.c takes the smallest PNG.
use ferretptimize.Common.{
  ℕ, suc, ◌≤◌, ◌≡◌, refl, ◌∙◌, Bool, true, false, ◌&&◌, List, [], ◌∷◌, Option, none, some, ltb,
  if◌then◌else◌, arith, All, get_elem?, Bool-cases, inl, inr, ◌⊎◌,
}
use ferretptimize.Common.Bytes.{Bytes}
use ferretptimize.Ferret.{EncodedImage}
use ferretptimize.Image.{Image}
use ferretptimize.Worker.{CompressCode, compress_ok, encode_error}
use ferretptimize.Worker.Encode.{Codecs, is_ok, has_content, pick_best, candidates, run_png_more}

-- The encoder succeeded and left a block.
abbrev pub is_good : CompressCode × EncodedImage → Bool
is_good c = is_ok c.0 && has_content c.1

abbrev pub NoneGood : List (CompressCode × EncodedImage) → Type 0
NoneGood cs = All (λ (c : CompressCode × EncodedImage). is_good c ≡ false) cs

abbrev pub NoneSmaller : EncodedImage → List (CompressCode × EncodedImage) → Type 0
NoneSmaller e cs =
    All (λ (c : CompressCode × EncodedImage). is_good c ≡ true → e.size ≤ c.1.size) cs

abbrev pub IsGoodIn : EncodedImage → List (CompressCode × EncodedImage) → Type 0
IsGoodIn e cs =
    (i : ℕ) × (code : CompressCode) × (get_elem? cs i ≡ some (code, e)) × (is_good (code, e) ≡ true)

-- The best after one candidate.
step_best : Option EncodedImage → CompressCode × EncodedImage → Option EncodedImage
step_best none c = if is_good c then some c.1 else none
step_best (some b) c = if is_good c then some (if ltb c.1.size b.size then c.1 else b) else some b

pick_best-step :
    (best : Option EncodedImage) (c : CompressCode × EncodedImage)
    (cs : List (CompressCode × EncodedImage))
    → pick_best best (c ∷ cs) ≡ pick_best (step_best best c) cs
unfolding pick_best step_best
pick_best-step none (code, e) cs = elim (Bool-cases (is_ok code)) [
  | inl ok ↦ elim (Bool-cases (has_content e)) [
    | inl c ↦ rw ok (rw c refl)
    | inr c ↦ rw ok (rw c refl)
  ]
  | inr bad ↦ rw bad refl
]
pick_best-step (some b) (code, e) cs = elim (Bool-cases (is_ok code)) [
  | inl ok ↦ elim (Bool-cases (has_content e)) [
    | inl c ↦ rw ok (rw c refl)
    | inr c ↦ rw ok (rw c refl)
  ]
  | inr bad ↦ rw bad refl
]

is_good_here :
    (e : EncodedImage) (c : CompressCode × EncodedImage) (cs : List (CompressCode × EncodedImage))
    → is_good c ≡ true
    → (e ≡ c.1) ⊎ IsGoodIn e cs
    → IsGoodIn e (c ∷ cs)
is_good_here e c cs good (inl same) = (0, c.0, rw same refl, rw same good)
is_good_here e c cs good (inr (i, code, at, g)) = (suc i, code, at, g)

later :
    {b e : EncodedImage} (c : CompressCode × EncodedImage) (cs : List (CompressCode × EncodedImage))
    → (e ≡ b) ⊎ IsGoodIn e cs
    → (e ≡ b) ⊎ IsGoodIn e (c ∷ cs)
later c cs (inl same) = inl same
later c cs (inr (i, code, at, good)) = inr (suc i, code, at, good)

pick_best-from :
    (b : EncodedImage) (cs : List (CompressCode × EncodedImage))
    → (e : EncodedImage) × (pick_best (some b) cs ≡ some e)
      × (e.size ≤ b.size)
      × NoneSmaller e cs
      × ((e ≡ b) ⊎ IsGoodIn e cs)
unfolding pick_best step_best
pick_best-from b [] = (b, refl, omega arith, tt, inl refl)
pick_best-from b (c ∷ cs) = elim (Bool-cases (is_good c)) [
  | inr bad ↦
      let (e, found, small, others, from) = pick_best-from b cs in
      (
        e,
        pick_best-step (some b) c cs ∙ rw bad found,
        small,
        (λ good. absurd (ground (arith, good, bad)), others),
        later c cs from,
      )
  | inl good ↦ elim (Bool-cases (ltb c.1.size b.size)) [
    | inl less ↦
        let (e, found, small, others, from) = pick_best-from c.1 cs in
        (
          e,
          pick_best-step (some b) c cs ∙ rw good (rw less found),
          ground (arith, less, small),
          (λ _. small, others),
          inr (is_good_here e c cs good from),
        )
    | inr more ↦
        let (e, found, small, others, from) = pick_best-from b cs in
        (
          e,
          pick_best-step (some b) c cs ∙ rw good (rw more found),
          small,
          (λ _. ground (arith, more, small), others),
          later c cs from,
        )
  ]
]

pick_best-none :
    (cs : List (CompressCode × EncodedImage))
    → (pick_best none cs ≡ none) × NoneGood cs
      ⊎ ((e : EncodedImage) × (pick_best none cs ≡ some e) × NoneSmaller e cs × IsGoodIn e cs)
unfolding pick_best step_best
pick_best-none [] = inl (refl, tt)
pick_best-none (c ∷ cs) = elim (Bool-cases (is_good c)) [
  | inr bad ↦ elim (pick_best-none cs) [
    | inl (e, none_good) ↦ inl (pick_best-step none c cs ∙ rw bad e, (bad, none_good))
    | inr (e, found, small, (i, code, at, good)) ↦ inr (
      e,
      pick_best-step none c cs ∙ rw bad found,
      ((λ g. absurd (ground (arith, g, bad))), small),
      (suc i, code, at, good),
    )
  ]
  | inl good ↦
      let (e, found, size, small, from) = pick_best-from c.1 cs in
      inr (
        e,
        pick_best-step none c cs ∙ rw good found,
        ((λ g. size), small),
        is_good_here e c cs good from,
      )
]

module _ (codecs : Codecs) (image : Image) (label : Bytes) (output : EncodedImage) where
  run_png_more-none :
      pick_best none (candidates codecs image label) ≡ none
      → run_png_more codecs image label output ≡ (encode_error, output)
  unfolding run_png_more
  run_png_more-none e = ground (arith, e)

  run_png_more-some :
      (e : EncodedImage)
      → pick_best none (candidates codecs image label) ≡ some e
      → run_png_more codecs image label output ≡ (compress_ok, e)
  unfolding run_png_more
  run_png_more-some e found = ground (arith, found)

-- With the smallest of the PNGs that were made at the levels 9, 7 and 6, or with an encode error and
-- the output left as it was when none could be made.
pub png_more_lem :
    (codecs : Codecs) (image : Image) (label : Bytes) (output : EncodedImage)
    → let tried = candidates codecs image label in
      let (code, e) = run_png_more codecs image label output in
      (code ≡ encode_error) × (e ≡ output) × NoneGood tried
      ⊎ (code ≡ compress_ok) × NoneSmaller e tried × IsGoodIn e tried
png_more_lem codecs image label output = elim (pick_best-none (candidates codecs image label)) [
  | inl (e, bad) ↦ rw (run_png_more-none codecs image label output e) (inl (refl, refl, bad))
  | inr (e, found, small, from) ↦
      rw (run_png_more-some codecs image label output e found) (inr (refl, small, from))
]
