-- ===== src/Base64/Tests.antt =====
-- Runs of the base64 routines, and their theorems at concrete inputs.
use ferretptimize.Common.{◌≡◌, refl, arith, some, true, [], ◌∷◌}
use ferretptimize.Common.Bytes.{Bytes, codes}
use ferretptimize.Base64.{
  symbol, value, encode_body, server_encode, url_encode, to_url, from_url, strip, padded,
  decode_groups, decode_group, url_decode, server_url_decode,
}
use ferretptimize.Base64.RoundTrip.{url_decode-url_encode}

-- Two bytes of which the standard alphabet needs both `+` and `/`.
abbrev sample : Bytes
sample = 0xfb ∷ 0xff ∷ []

server_encode-sample : server_encode true sample ≡ some (codes "+/8=")
unfolding server_encode encode_body symbol
server_encode-sample = refl

url_encode-sample : url_encode true sample ≡ some (codes "-_8")
unfolding url_encode encode_body symbol to_url strip
url_encode-sample = refl

url_decode-sample : url_decode true true sample ≡ some (0 ∷ [])
unfolding url_decode padded decode_groups decode_group from_url value
url_decode-sample = refl

url_decode-url_encode_example :
    (url_decode true true (codes "-_8") ≡ some sample)
    × (server_url_decode true true (codes "-_8") ≡ some sample)
url_decode-url_encode_example = url_decode-url_encode sample (omega arith) url_encode-sample
