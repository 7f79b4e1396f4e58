-- ===== src/Base64/RoundTrip.antt =====
-- Decoding undoes encoding.
use ferretptimize.Common.{
  ℕ, ◌+◌, ◌*◌, ◌/◌, ◌%◌, ◌^◌, ◌<◌, ◌≡◌, refl, true, false, some, [], ◌∷◌, map, ◌==◌, length, All,
  arith,
}
use ferretptimize.Common.Bytes.{Bytes, IsByte}
use ferretptimize.Base64.{
  symbol, value, pad, sextet, encode_body, to_url, from_url, strip, url_encode, decode_group,
  decode_groups, padded, url_decode, progress_encode, server_encode, server_url_decode,
}
use ferretptimize.Base64.Strip.{
  padded-group, strip-group, from_url-pad, to_url-pad, padded-nil, padded_two, padded_three,
  strip_two, strip_three,
}
use ferretptimize.Base64.Symbols.{symbol-Read}

-- A group of four symbols that stand for the numbers `i`, `j`, `k`, `l`.
decode_group-whole :
    (p q r s i j k l : ℕ)
    → value p ≡ i
    → value q ≡ j
    → value r ≡ k
    → value s ≡ l
    → (r == pad) ≡ false
    → (s == pad) ≡ false
    → decode_group p q r s
      ≡ ((i * 4 + j / 16) % 256) ∷ ((j % 16 * 16 + k / 4) % 256) ∷ ((k % 4 * 64 + l) % 256) ∷ []
unfolding decode_group
decode_group-whole p q r s i j k l hp hq hr hs nr ns = ground arith

bits_of_triple :
    (a b c : ℕ)
    → IsByte a
    → IsByte b
    → IsByte c
    → let t = a * 2 ^ 16 + b * 2 ^ 8 + c in
      ((t / 2 ^ 18 % 64 * 4 + t / 2 ^ 12 % 64 / 16) % 256 ≡ a)
      × ((t / 2 ^ 12 % 64 % 16 * 16 + t / 2 ^ 6 % 64 / 4) % 256 ≡ b)
      × ((t / 2 ^ 6 % 64 % 4 * 64 + t / 2 ^ 0 % 64) % 256 ≡ c)
bits_of_triple a b c ha hb hc = omega arith

-- A translation of the symbols that the decoders read back.
abbrev Legible : (ℕ → ℕ) → Type 0
Legible f =
    (i : ℕ)
    → i < 64
    → (value (from_url (f (symbol i))) ≡ i) × ((from_url (f (symbol i)) == pad) ≡ false)

module _ (f : ℕ → ℕ) (legible : Legible f) where
  abbrev char : ℕ → ℕ → ℕ
  char t shift = from_url (f (sextet t shift))

  decode_three :
      (a b c : ℕ)
      → IsByte a
      → IsByte b
      → IsByte c
      → let t = a * 2 ^ 16 + b * 2 ^ 8 + c in
        decode_group (char t 18) (char t 12) (char t 6) (char t 0) ≡ a ∷ b ∷ c ∷ []
  decode_three a b c ha hb hc =
      let t = a * 2 ^ 16 + b * 2 ^ 8 + c in
      let i = t / 2 ^ 18 % 64 in
      let j = t / 2 ^ 12 % 64 in
      let k = t / 2 ^ 6 % 64 in
      let l = t / 2 ^ 0 % 64 in
      ground (
        arith,
        bits_of_triple a b c ha hb hc,
        decode_group-whole (char t 18) (char t 12) (char t 6) (char t 0) i j k l
            (legible i (omega arith)).0 (legible j (omega arith)).0 (legible k (omega arith)).0
            (legible l (omega arith)).0 (legible k (omega arith)).1 (legible l (omega arith)).1,
      )

  decode_two :
      (a b : ℕ)
      → IsByte a
      → IsByte b
      → let t = a * 2 ^ 16 + b * 2 ^ 8 in
        decode_group (char t 18) (char t 12) (char t 6) pad ≡ a ∷ b ∷ []
  unfolding decode_group
  decode_two a b ha hb =
      let t = a * 2 ^ 16 + b * 2 ^ 8 in
      ground (
        arith,
        bits_of_triple a b 0 ha hb (omega arith),
        legible (t / 2 ^ 18 % 64) (omega arith),
        legible (t / 2 ^ 12 % 64) (omega arith),
        legible (t / 2 ^ 6 % 64) (omega arith),
      )

  decode_one :
      (a : ℕ)
      → IsByte a
      → let t = a * 2 ^ 16 in decode_group (char t 18) (char t 12) pad pad ≡ a ∷ []
  unfolding decode_group
  decode_one a ha =
      let t = a * 2 ^ 16 in
      ground (
        arith,
        bits_of_triple a 0 0 ha (omega arith) (omega arith),
        legible (t / 2 ^ 18 % 64) (omega arith),
        legible (t / 2 ^ 12 % 64) (omega arith),
      )

plain-Legible : Legible (λ c. c)
plain-Legible i h = let r = symbol-Read i h in (r.standard, r.not_pad)

url-Legible : Legible to_url
url-Legible i h = let r = symbol-Read i h in (r.url, r.url_not_pad)

decode-encode_body :
    (bytes : Bytes) → All IsByte bytes → decode_groups (padded (encode_body bytes)) ≡ bytes
unfolding encode_body decode_groups
decode-encode_body [] h = rw padded-nil
decode-encode_body (a ∷ []) h =
    rw (padded-group, from_url-pad, padded-nil) (rw (decode_one (λ c. c) plain-Legible a h.0))
decode-encode_body (a ∷ b ∷ []) h =
    rw (padded-group, from_url-pad, padded-nil)
      (rw (decode_two (λ c. c) plain-Legible a b h.0 h.1.0))
decode-encode_body (a ∷ b ∷ c ∷ rest) h = rw (
  padded-group,
  decode_three (λ c. c) plain-Legible a b c h.0 h.1.0 h.1.1.0,
  decode-encode_body rest h.1.1.1,
)

abbrev url_body : Bytes → Bytes
url_body bytes = strip (map to_url (encode_body bytes))

-- The symbols of the last, shorter group are not the padding.
last_kept : (t shift : ℕ) → (to_url (sextet t shift) == pad) ≡ false
last_kept t shift = (symbol-Read (t / 2 ^ shift % 64) (omega arith)).kept

decode-url_body :
    (bytes : Bytes) → All IsByte bytes → decode_groups (padded (url_body bytes)) ≡ bytes
unfolding encode_body decode_groups
decode-url_body [] h = unfold strip padded in refl
decode-url_body (a ∷ []) h =
    rw
      (
        to_url-pad,
        strip_two (to_url (sextet (a * 2 ^ 16) 18)) (to_url (sextet (a * 2 ^ 16) 12))
            (last_kept _ 12),
        padded_two,
      )
      (rw (decode_one to_url url-Legible a h.0))
decode-url_body (a ∷ b ∷ []) h =
    let t = a * 2 ^ 16 + b * 2 ^ 8 in
    rw
      (
        to_url-pad,
        strip_three (to_url (sextet t 18)) (to_url (sextet t 12)) (to_url (sextet t 6))
            (last_kept t 6),
        padded_three,
      )
      (rw (decode_two to_url url-Legible a b h.0 h.1.0))
decode-url_body (a ∷ b ∷ c ∷ rest) h =
    let t = a * 2 ^ 16 + b * 2 ^ 8 + c in
    rw (
      strip-group (to_url (sextet t 18)) (to_url (sextet t 12)) (to_url (sextet t 6))
          (to_url (sextet t 0)) (map to_url (encode_body rest)) (last_kept t 0),
      padded-group,
      decode_three to_url url-Legible a b c h.0 h.1.0 h.1.1.0,
      decode-url_body rest h.1.1.1,
    )

-- What the auth module writes as base64url, both decoders read back: the auth module's always, the
-- server's with the same bytes.
pub url_decode-url_encode :
    (bytes : Bytes) {text : Bytes}
    → All IsByte bytes
    → url_encode true bytes ≡ some text
    → (url_decode true true text ≡ some bytes) × (server_url_decode true true text ≡ some bytes)
unfolding url_encode url_decode server_url_decode
url_decode-url_encode bytes {text} h e = ground (arith, decode-url_body bytes h, decode_empty text)
  where
    decode_empty : (s : Bytes) → length s ≡ 0 → decode_groups (padded s) ≡ []
    decode_empty [] z = rw padded-nil (unfold decode_groups in refl)
    decode_empty (x ∷ s) z = absurd (omega arith)

-- The decoders also read the padded base64 that the progress stream and the JSON replies carry, and
-- those two encoders write the same text.
pub decode-encode :
    (bytes : Bytes)
    → All IsByte bytes
    → (progress_encode true bytes ≡ server_encode true bytes)
      × ((text : Bytes)
          → server_encode true bytes ≡ some text
          → url_decode true true text ≡ some bytes)
unfolding progress_encode server_encode url_decode encode_body
decode-encode [] h = (refl, λ text e. ground (arith, decode-encode_body [] h))
decode-encode (b ∷ bytes) h =
    (ground arith, λ text e. ground (arith, decode-encode_body (b ∷ bytes) h))
