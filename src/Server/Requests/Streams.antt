-- ===== src/Server/Requests/Streams.antt =====
-- The path under which src/server.c streams the events of a job, as public/app.js builds it.
use ferretptimize.Common.{
  ℕ, zero, suc, ◌+◌, ◌/◌, ◌%◌, ◌^◌, ◌<◌, ◌≡◌, ◌∙◌, refl, ap, sym, true, false, ◌||◌, some, ◌∷◌,
  ◌++◌, arith, ◌==◌, leb,
}
use ferretptimize.Common.Bytes.{Bytes, codes, is_digit, is_space, str_eq, has_prefix}
use ferretptimize.Auth.Fields.{skip_spaces, read_digits}
use ferretptimize.Auth.Token.{decimal, digits_before, max_digits}
use ferretptimize.Auth.Token.Text.{decimal-append, decimal-Digits, read_digits-decimal}
use ferretptimize.Server.Requests.{
  signed_u64, read_u64, after_digits, after_sign, parse_stream_path,
}

after_digits-digits_before :
    (k n : ℕ) (text : Bytes) → after_digits (digits_before k n text) ≡ after_digits text
unfolding after_digits digits_before
after_digits-digits_before zero n text = refl
after_digits-digits_before (suc k) n text =
    let d = b'0' + n % 10 in
    let digit : is_digit d ≡ true = ground arith in
    ground (arith, digit, after_digits-digits_before k (n / 10) (d ∷ text))

-- A number that is printed is read back, and what follows it is left.
number-read :
    (c : ℕ) (s tail : Bytes) (n : ℕ)
    → is_digit c ≡ true
    → read_digits 0 (c ∷ s) ≡ n
    → n < 2 ^ 64
    → after_digits (c ∷ s) ≡ tail
    → (read_u64 (c ∷ s) ≡ n) × (after_digits (after_sign (skip_spaces (c ∷ s))) ≡ tail)
unfolding signed_u64 skip_spaces
number-read c s tail n digit value small left =
    let whole : is_space c ≡ false = ground (arith, digit) in
    let unsigned : (c == b'-' || c == b'+') ≡ false = ground (arith, digit) in
    let plus : (c == b'-') ≡ false = ground (arith, digit) in
    let large : leb (2 ^ 64) n ≡ false = ground (arith, small) in
    (rw (whole, signed_u64, unsigned, value, large, plus) refl, rw (whole, unsigned) left)

-- The path "/api/jobs/<id>/events" with a positive id below 2 ^ 64 in decimal leads to that id.
pub parse_stream_path-decimal :
    (id : ℕ)
    → 0 < id
    → id < 2 ^ 64
    → parse_stream_path (codes "/api/jobs/" ++ (decimal id ++ codes "/events")) ≡ some id
unfolding parse_stream_path has_prefix after_digits str_eq
parse_stream_path-decimal id some_id small =
    let (c, s, e, digit) = decimal-Digits id (codes "/events") in
    let value : read_digits 0 (c ∷ s) ≡ id =
      ap (read_digits 0) (sym e) ∙ read_digits-decimal id (codes "/events") small refl in
    let left : after_digits (c ∷ s) ≡ codes "/events" =
      ap after_digits (sym e)
      ∙ ap after_digits (decimal-append id (codes "/events"))
      ∙ after_digits-digits_before max_digits id (codes "/events") in
    let (number, tail) = number-read c s (codes "/events") id digit value small left in
    let positive : (id == 0) ≡ false = ground (arith, some_id) in
    rw (e, parse_stream_path, number, positive, tail) refl
