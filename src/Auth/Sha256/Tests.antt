-- ===== src/Auth/Sha256/Tests.antt =====
-- The published vectors, by evaluation, and the theorems at concrete messages.
use ferretptimize.Common.{◌≡◌, refl}
use ferretptimize.Common.Bytes.{codes}
use ferretptimize.Auth.Sha256.{
  update, absorb, transform, rounds, round, extend, load_words, final, be64, hash_bytes, sha256,
  sha256_hex, hex_text, hmac_sha256, key_block,
}

sha256_abc :
    sha256_hex (codes "abc")
    ≡ codes "ba7816bf8f01cfea414140de5dae2223b00361a396177a9cb410ff61f20015ad"
unfolding update absorb transform rounds round extend load_words final be64 hash_bytes sha256
    sha256_hex
sha256_abc = refl

hmac_jefe :
    hex_text (hmac_sha256 (codes "Jefe") (codes "what do ya want for nothing?"))
    ≡ codes "5bdcc146bf60754e6a042426089575c75a003f089d2739839dec58b964ec3843"
unfolding update absorb transform rounds round extend load_words final be64 hash_bytes sha256
    hmac_sha256 key_block hex_text
hmac_jefe = refl
