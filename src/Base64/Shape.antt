-- ===== src/Base64/Shape.antt =====
-- How much the base64 routines write, and which bytes.
use ferretptimize.Common.{
  ℕ, ◌+◌, ◌-◌, ◌*◌, ◌/◌, ◌%◌, ◌^◌, ◌≤◌, ◌≡◌, ◌∙◌, refl, true, false, some, [], ◌∷◌, map, ◌==◌,
  if◌then◌else◌, length, length-append, length-replicate, replicate, All, arith,
}
use ferretptimize.Common.Bytes.{Bytes}
use ferretptimize.Base64.{
  pad, sextet, encode_body, encoded_len, to_url, from_url, strip, url_encode, decode_group,
  decode_groups, padded, url_decode, server_encode,
}
use ferretptimize.Base64.Strip.{to_url-pad, strip_two, strip_three, strip-group}
use mathlib.Core.Path.{subst}
use mathlib.Core.Option.{some_inj}
use ferretptimize.Base64.Symbols.{symbol-Read, is_url_safe, symbol-url_safe}

length-encode_groups : (bytes : Bytes) → length (encode_body bytes) ≡ 4 * ((length bytes + 2) / 3)
unfolding encode_body
length-encode_groups [] = refl
length-encode_groups (a ∷ []) = refl
length-encode_groups (a ∷ b ∷ []) = refl
length-encode_groups (a ∷ b ∷ c ∷ rest) = omega (arith, length-encode_groups rest)

length-encode_body : (bytes : Bytes) → length (encode_body bytes) ≡ encoded_len bytes
length-encode_body [] = length-encode_groups []
length-encode_body (a ∷ bytes) = length-encode_groups (a ∷ bytes) ∙ ground arith

length-map : (f : ℕ → ℕ) (s : Bytes) → length (map f s) ≡ length s
length-map f [] = refl
length-map f (x ∷ s) = omega (arith, length-map f s)

length-padded-mod : (s : Bytes) → length (padded s) % 4 ≡ 0
unfolding padded
length-padded-mod s =
    let n = if length s % 4 == 0 then 0 else 4 - length s % 4 in
    ground (
      arith,
      length-append (map from_url s) (replicate n pad),
      length-replicate n pad,
      length-map from_url s,
    )

length-decode_group : (p q r s : ℕ) → length (decode_group p q r s) ≤ 3
unfolding decode_group
length-decode_group p q r s = ground arith

length-decode_groups : (s : Bytes) → length (decode_groups s) ≤ length s / 4 * 3
unfolding decode_groups
length-decode_groups (p ∷ q ∷ r ∷ s ∷ rest) = omega (
  arith,
  length-append (decode_group p q r s) (decode_groups rest),
  length-decode_group p q r s,
  length-decode_groups rest,
)
length-decode_groups _ = omega arith

-- The encoder fills exactly the bytes that `encoded_len` counts, and the decoder stays within the
-- three bytes for each group that it allocates; its input is padded to whole groups.
pub base64_bounds :
    (bytes text out : Bytes)
    → server_encode true bytes ≡ some text
    → url_decode true true bytes ≡ some out
    → (length text ≡ encoded_len bytes)
      × (length (padded bytes) % 4 ≡ 0)
      × (length out ≤ length (padded bytes) / 4 * 3)
unfolding server_encode url_decode
base64_bounds bytes text out e d =
    ground (
      arith,
      length-encode_body bytes,
      length-padded-mod bytes,
      length-decode_groups (padded bytes),
    )

abbrev pub IsUrlSafe : Bytes → Type 0
IsUrlSafe s = All (λ c. is_url_safe c ≡ true) s

-- A symbol of the URL-safe alphabet is no padding, so `strip` keeps it and all before it.
url_symbol :
    (t shift : ℕ)
    → ((to_url (sextet t shift) == pad) ≡ false) × (is_url_safe (to_url (sextet t shift)) ≡ true)
url_symbol t shift = (
  (symbol-Read (t / 2 ^ shift % 64) (omega arith)).kept,
  symbol-url_safe (t / 2 ^ shift % 64) (omega arith),
)

strip-IsUrlSafe : (bytes : Bytes) → IsUrlSafe (strip (map to_url (encode_body bytes)))
unfolding encode_body
strip-IsUrlSafe [] = unfold strip in tt
strip-IsUrlSafe (a ∷ []) =
    let t = a * 2 ^ 16 in
    rw (to_url-pad, strip_two (to_url (sextet t 18)) (to_url (sextet t 12)) (url_symbol t 12).0)
      ((url_symbol t 18).1, ((url_symbol t 12).1, tt))
strip-IsUrlSafe (a ∷ b ∷ []) =
    let t = a * 2 ^ 16 + b * 2 ^ 8 in
    rw
      (
        to_url-pad,
        strip_three (to_url (sextet t 18)) (to_url (sextet t 12)) (to_url (sextet t 6))
            (url_symbol t 6).0,
      )
      ((url_symbol t 18).1, ((url_symbol t 12).1, ((url_symbol t 6).1, tt)))
strip-IsUrlSafe (a ∷ b ∷ c ∷ rest) =
    let t = a * 2 ^ 16 + b * 2 ^ 8 + c in
    rw
      (strip-group (to_url (sextet t 18)) (to_url (sextet t 12)) (to_url (sextet t 6))
        (to_url (sextet t 0)) (map to_url (encode_body rest)) (url_symbol t 0).0)
      (
        (url_symbol t 18).1,
        ((url_symbol t 12).1, ((url_symbol t 6).1, ((url_symbol t 0).1, strip-IsUrlSafe rest))),
      )

-- Every byte that the auth module's encoder writes is a letter, a digit, `-` or `_`: a token has no
-- dot inside a part, and a cookie no semicolon.
pub url_encode-IsUrlSafe : (bytes text : Bytes) → url_encode true bytes ≡ some text → IsUrlSafe text
unfolding url_encode
url_encode-IsUrlSafe bytes text e = subst IsUrlSafe (some_inj.0 e) (strip-IsUrlSafe bytes)
