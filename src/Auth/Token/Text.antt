-- ===== src/Auth/Token/Text.antt =====
-- Searching and reading the text of a token's payload.
use ferretptimize.Common.{
  ℕ, zero, suc, ◌+◌, ◌*◌, ◌/◌, ◌%◌, ◌^◌, ◌<◌, ◌≡◌, ◌∙◌, refl, sym, ap, Bool, true, false, ◌&&◌,
  ◌||◌, none, some, [], ◌∷◌, ◌++◌, append_assoc, leb, ltb, ◌==◌, arith, All, Bool-cases, inl, inr,
}
use ferretptimize.Common.Int.{pos}
use ferretptimize.Common.Bytes.{Bytes, IsByte, is_digit, has_prefix}
use ferretptimize.Auth.Fields.{
  find_text, quoted, skip_spaces, read_digits, starts_with_digit, read_int64,
}
use ferretptimize.Auth.Token.{digits_before, decimal, max_digits, c_string}

-- The byte is in the text.
unfoldable pub holds : ℕ → Bytes → Bool
holds c [] = false
holds c (x ∷ s) = let later = holds c s in x == c || later

has_prefix-append :
    (needle w rest : Bytes) (c : ℕ)
    → holds c needle ≡ false
    → has_prefix needle (w ++ (c ∷ rest)) ≡ has_prefix needle w
unfolding has_prefix holds
has_prefix-append [] w rest c h = refl
has_prefix-append (y ∷ ys) [] rest c h = ground (arith, h)
has_prefix-append (y ∷ ys) (x ∷ w) rest c h = ground (arith, h, has_prefix-append ys w rest c)

-- A search passes over a text that does not hold what is sought, up to a byte that is not in it.
pub find_text-append :
    (needle w rest : Bytes) (c : ℕ)
    → holds c needle ≡ false
    → find_text needle w ≡ none
    → find_text needle (w ++ (c ∷ rest)) ≡ find_text needle (c ∷ rest)
unfolding find_text
find_text-append needle [] rest c h e = refl
find_text-append needle (x ∷ w) rest c h e =
    ground
      (arith, h, e, has_prefix-append needle (x ∷ w) rest c h, find_text-append needle w rest c h)

pub find_text-value :
    (needle value rest : Bytes) (c : ℕ)
    → holds c needle ≡ false
    → find_text needle (quoted value) ≡ none
    → find_text needle (b'"' ∷ (value ++ (b'"' ∷ c ∷ rest))) ≡ find_text needle (c ∷ rest)
find_text-value needle value rest c h e =
    ap (λ (s : Bytes). find_text needle (b'"' ∷ s))
      (sym (append_assoc value (b'"' ∷ []) (c ∷ rest)))
    ∙ find_text-append needle (quoted value) rest c h e

-- A C string's bytes.
unfoldable pub is_text : Bytes → Bool
is_text [] = true
is_text (c ∷ s) = let rest = is_text s in leb 1 c && ltb c 256 && rest

pub is_text-append : (a b : Bytes) → is_text a ≡ true → is_text b ≡ true → is_text (a ++ b) ≡ true
unfolding is_text
is_text-append [] b ha hb = hb
is_text-append (x ∷ a) b ha hb = ground (arith, ha, hb, is_text-append a b)

pub c_string-text : (s : Bytes) → is_text s ≡ true → c_string s ≡ s
unfolding is_text c_string
c_string-text [] h = refl
c_string-text (c ∷ s) h = ground (arith, h, c_string-text s)

pub bytes_of_text : (s : Bytes) → is_text s ≡ true → All IsByte s
unfolding is_text
bytes_of_text [] h = tt
bytes_of_text (c ∷ s) h = (ground (arith, h), bytes_of_text s (ground (arith, h)))

-- Decimal numbers.
abbrev below : ℕ → ℕ
below zero = 1
below (suc k) = 10 * below k

digits_before-append :
    (k n : ℕ) (text rest : Bytes)
    → digits_before k n text ++ rest ≡ digits_before k n (text ++ rest)
unfolding digits_before
digits_before-append zero n text rest = refl
digits_before-append (suc k) n text rest =
    let d = b'0' + n % 10 in ground (arith, digits_before-append k (n / 10) (d ∷ text) rest)

read_digits-digits_before :
    (k n : ℕ) (text : Bytes)
    → n < below k
    → read_digits 0 (digits_before k n text) ≡ read_digits n text
unfolding digits_before read_digits
read_digits-digits_before zero n text h = ap (λ (m : ℕ). read_digits m text) (omega (arith, h))
read_digits-digits_before (suc k) n text h =
    let d = b'0' + n % 10 in
    let digit : is_digit d ≡ true = ground arith in
    elim (Bool-cases (ltb n 10)) [
      | inl small ↦ ground (arith, digit, small)
      | inr large ↦
          let ih = read_digits-digits_before k (n / 10) (d ∷ text) (ground (arith, h, large)) in
          ground (arith, digit, large, ih)
    ]

-- What starts with a digit.
abbrev pub Digits : Bytes → Type 0
Digits s = (c : ℕ) × (rest : Bytes) × (s ≡ c ∷ rest) × (is_digit c ≡ true)

digits_before-Digits :
    (k n d : ℕ) (text : Bytes) → is_digit d ≡ true → Digits (digits_before k n (d ∷ text))
unfolding digits_before
digits_before-Digits zero n d text h = (d, text, refl, h)
digits_before-Digits (suc k) n d text h = elim (Bool-cases (ltb n 10)) [
  | inl small ↦ rw small (b'0' + n % 10, d ∷ text, refl, ground arith)
  | inr large ↦ rw large (digits_before-Digits k (n / 10) (b'0' + n % 10) (d ∷ text) (ground arith))
]

pub decimal-append : (n : ℕ) (rest : Bytes) → decimal n ++ rest ≡ digits_before max_digits n rest
unfolding decimal
decimal-append n rest = digits_before-append max_digits n [] rest

first-Digits : (k n : ℕ) (rest : Bytes) → Digits (digits_before (suc k) n rest)
unfolding digits_before
first-Digits k n rest = elim (Bool-cases (ltb n 10)) [
  | inl small ↦ rw small (digits_before-Digits zero n (b'0' + n % 10) rest (ground arith))
  | inr large ↦ rw large (digits_before-Digits k (n / 10) (b'0' + n % 10) rest (ground arith))
]

pub decimal-Digits : (n : ℕ) (rest : Bytes) → Digits (decimal n ++ rest)
decimal-Digits n rest = rw (decimal-append n rest) (first-Digits 19 n rest)

read_digits-stop : (n : ℕ) (rest : Bytes) → starts_with_digit rest ≡ false → read_digits n rest ≡ n
unfolding read_digits
read_digits-stop n [] h = refl
read_digits-stop n (c ∷ s) h = ground (arith, h)

read_int64-digit :
    (c : ℕ) (rest : Bytes)
    → is_digit c ≡ true
    → read_digits 0 (c ∷ rest) < 2 ^ 63
    → read_int64 (skip_spaces (c ∷ rest)) ≡ some (pos (read_digits 0 (c ∷ rest)))
unfolding read_int64 skip_spaces
read_int64-digit c rest digit h =
    let whole : skip_spaces (c ∷ rest) ≡ c ∷ rest = ground (arith, digit) in
    let plain : ((c == b'-') ≡ false) × ((c == b'+') ≡ false) = ground (arith, digit) in
    rw (whole, plain.0, plain.1) ground (arith, digit, h)

pub read_digits-decimal :
    (n : ℕ) (rest : Bytes)
    → n < 2 ^ 64
    → starts_with_digit rest ≡ false
    → read_digits 0 (decimal n ++ rest) ≡ n
read_digits-decimal n rest h stop =
    ap (read_digits 0) (decimal-append n rest)
    ∙ read_digits-digits_before max_digits n rest (omega (arith, h))
    ∙ read_digits-stop n rest stop

-- What is printed is read back.
pub read_int64-decimal :
    (n : ℕ) (rest : Bytes)
    → n < 2 ^ 63
    → starts_with_digit rest ≡ false
    → read_int64 (skip_spaces (decimal n ++ rest)) ≡ some (pos n)
read_int64-decimal n rest h stop =
    let same = read_digits-decimal n rest (omega (arith, h)) stop in
    let (c, more, e, digit) = decimal-Digits n rest in
    let read = λ (s : Bytes). read_int64 (skip_spaces s) in
    let value = ap (read_digits 0) e in
    ap read e
    ∙ read_int64-digit c more digit (omega (arith, same, value, h))
    ∙ ap (λ (m : ℕ). some (pos m)) (sym value)
    ∙ ap (λ (m : ℕ). some (pos m)) same

is_text-digits_before :
    (k n : ℕ) (text : Bytes) → is_text text ≡ true → is_text (digits_before k n text) ≡ true
unfolding digits_before is_text
is_text-digits_before zero n text h = h
is_text-digits_before (suc k) n text h =
    ground (arith, h, is_text-digits_before k (n / 10) ((b'0' + n % 10) ∷ text))

pub is_text-decimal : (n : ℕ) → is_text (decimal n) ≡ true
unfolding decimal is_text
is_text-decimal n = is_text-digits_before max_digits n [] refl

find_text-digits_before :
    (key : Bytes) (k n : ℕ) (text : Bytes)
    → find_text (b'"' ∷ key) text ≡ none
    → find_text (b'"' ∷ key) (digits_before k n text) ≡ none
unfolding digits_before find_text has_prefix
find_text-digits_before key zero n text h = h
find_text-digits_before key (suc k) n text h =
    ground (arith, h, find_text-digits_before key k (n / 10) ((b'0' + n % 10) ∷ text))

pub find_text-decimal : (key : Bytes) (n : ℕ) → find_text (b'"' ∷ key) (decimal n) ≡ none
unfolding decimal find_text has_prefix
find_text-decimal key n = find_text-digits_before key max_digits n [] refl
