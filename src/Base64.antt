-- ===== src/Base64.antt =====
-- The base64 routines: `fp_progress_base64_encode` of src/progress.c, `fp_base64_encode` and
-- `fp_base64url_decode` of src/server.c, `fp_base64url_encode` and `fp_base64url_decode` of
-- src/auth.c. The parts that the source joins by `|` have no bit in common, so `|` is `+` here;
-- `>> k` is `/ 2 ^ k` and `& 0x3F` is `% 64`. The Booleans say which allocations succeed.
pub mod Symbols
mod Strip
pub mod RoundTrip
pub mod Shape
mod Tests
use ferretptimize.Common.{
  ℕ, ◌+◌, ◌-◌, ◌*◌, ◌/◌, ◌%◌, ◌^◌, Bool, true, false, ◌&&◌, Option, none, some, List, [], ◌∷◌, ◌++◌,
  map, leb, ◌==◌, if◌then◌else◌, get_or, length, replicate,
}
use ferretptimize.Common.Bytes.{Bytes, codes}

-- `table[]` of the encoders.
unfoldable pub symbol : ℕ → ℕ
symbol i = get_or (codes "ABCDEFGHIJKLMNOPQRSTUVWXYZabcdefghijklmnopqrstuvwxyz0123456789+/") i 0

-- `table[256]` of the decoders, 0 where it has no initialiser.
unfoldable pub value : ℕ → ℕ
value c =
    if leb b'A' c && leb c b'Z'
    then c - b'A'
    else if leb b'a' c && leb c b'z'
    then c - b'a' + 26
    else if leb b'0' c && leb c b'9'
    then c - b'0' + 52
    else if c == b'+'
    then 62
    else if c == b'/'
    then 63
    else 0

abbrev pub pad : ℕ
pad = b'='

abbrev pub sextet : ℕ → ℕ → ℕ
sextet triple shift = symbol (triple / 2 ^ shift % 64)

-- The loop over whole triples, and the one or two bytes that remain.
unfoldable pub encode_body : Bytes → Bytes
encode_body [] = []
encode_body (a ∷ []) =
    let triple = a * 2 ^ 16 in sextet triple 18 ∷ sextet triple 12 ∷ pad ∷ pad ∷ []
encode_body (a ∷ b ∷ []) =
    let triple = a * 2 ^ 16 + b * 2 ^ 8 in
    sextet triple 18 ∷ sextet triple 12 ∷ sextet triple 6 ∷ pad ∷ []
encode_body (a ∷ b ∷ c ∷ rest) =
    let triple = a * 2 ^ 16 + b * 2 ^ 8 + c in
    sextet triple 18 ∷ sextet triple 12 ∷ sextet triple 6 ∷ sextet triple 0 ∷ encode_body rest

-- `encoded_len`.
abbrev pub encoded_len : Bytes → ℕ
encoded_len bytes = if length bytes == 0 then 0 else 4 * ((length bytes + 2) / 3)

-- `fp_progress_base64_encode`.
pub progress_encode : Bool → Bytes → Option Bytes
progress_encode out_ok bytes = if out_ok then some (encode_body bytes) else none

-- `fp_base64_encode` of the server, with its early return for the empty input.
pub server_encode : Bool → Bytes → Option Bytes
server_encode out_ok bytes =
    if encoded_len bytes == 0
    then (if out_ok then some [] else none)
    else if out_ok
    then some (encode_body bytes)
    else none

unfoldable pub to_url : ℕ → ℕ
to_url c = if c == b'+' then b'-' else if c == b'/' then b'_' else c

unfoldable pub from_url : ℕ → ℕ
from_url c = if c == b'-' then b'+' else if c == b'_' then b'/' else c

-- `while (encoded_len > 0 && tmp[encoded_len - 1] == '=')`: drop the padding at the end.
unfoldable pub strip : Bytes → Bytes
strip [] = []
strip (c ∷ s) = let rest = strip s in if c == pad && length rest == 0 then [] else c ∷ rest

-- `fp_base64url_encode` of the auth module.
unfoldable pub url_encode : Bool → Bytes → Option Bytes
url_encode out_ok bytes = if out_ok then some (strip (map to_url (encode_body bytes))) else none

-- One group of four of a decoder.
unfoldable pub decode_group : ℕ → ℕ → ℕ → ℕ → Bytes
decode_group p q r s =
    let a = value p in
    let b = value q in
    let c = if r == pad then 0 else value r in
    let d = if s == pad then 0 else value s in
    ((a * 4 + b / 16) % 256)
    ∷ ((if r == pad then [] else (b % 16 * 16 + c / 4) % 256 ∷ [])
        ++ (if s == pad then [] else (c % 4 * 64 + d) % 256 ∷ []))

-- The loop of a decoder over the padded input, whose length is a multiple of four.
unfoldable pub decode_groups : Bytes → Bytes
decode_groups (p ∷ q ∷ r ∷ s ∷ rest) = decode_group p q r s ++ decode_groups rest
decode_groups _ = []

-- The second and third loop: translate, then fill up with `=`.
unfoldable pub padded : Bytes → Bytes
padded input =
    map from_url input ++ replicate (if length input % 4 == 0 then 0 else 4 - length input % 4) pad

-- `fp_base64url_decode` of the auth module.
unfoldable pub url_decode : Bool → Bool → Bytes → Option Bytes
url_decode buf_ok out_ok input =
    if buf_ok && out_ok then some (decode_groups (padded input)) else none

-- `fp_base64url_decode` of the server: the empty input gives a NULL of length 0.
pub server_url_decode : Bool → Bool → Bytes → Option Bytes
server_url_decode buf_ok out_ok input =
    if length input == 0
    then some []
    else if buf_ok && out_ok
    then some (decode_groups (padded input))
    else none
