-- ===== src/Auth/Sha256.antt =====
-- SHA-256 and HMAC of src/auth.c. A uint32_t is a number below 2 ^ 32, with its wrap-around written
-- out. The bytes of `data[]` from `datalen` on are never read before they are written, so the context
-- keeps the bytes before, whose number is `datalen`.
pub mod Reference
pub mod Hmac
mod Tests
use Prim.Native.Nat.{bit_and, bit_or, bit_xor}
use ferretptimize.Common.{
  ℕ, zero, suc, ◌+◌, ◌-◌, ◌*◌, ◌/◌, ◌%◌, ◌^◌, Bool, List, [], ◌∷◌, ◌++◌, map, ltb, ◌==◌,
  if◌then◌else◌, get_or, length, replicate,
}
use ferretptimize.Common.Bytes.{Bytes, codes}

-- `FP_K`.
abbrev round_constants : List ℕ
round_constants =
    0x428a2f98 ∷ 0x71374491 ∷ 0xb5c0fbcf ∷ 0xe9b5dba5 ∷ 0x3956c25b ∷ 0x59f111f1 ∷ 0x923f82a4
    ∷ 0xab1c5ed5 ∷ 0xd807aa98 ∷ 0x12835b01 ∷ 0x243185be ∷ 0x550c7dc3 ∷ 0x72be5d74 ∷ 0x80deb1fe
    ∷ 0x9bdc06a7 ∷ 0xc19bf174 ∷ 0xe49b69c1 ∷ 0xefbe4786 ∷ 0x0fc19dc6 ∷ 0x240ca1cc ∷ 0x2de92c6f
    ∷ 0x4a7484aa ∷ 0x5cb0a9dc ∷ 0x76f988da ∷ 0x983e5152 ∷ 0xa831c66d ∷ 0xb00327c8 ∷ 0xbf597fc7
    ∷ 0xc6e00bf3 ∷ 0xd5a79147 ∷ 0x06ca6351 ∷ 0x14292967 ∷ 0x27b70a85 ∷ 0x2e1b2138 ∷ 0x4d2c6dfc
    ∷ 0x53380d13 ∷ 0x650a7354 ∷ 0x766a0abb ∷ 0x81c2c92e ∷ 0x92722c85 ∷ 0xa2bfe8a1 ∷ 0xa81a664b
    ∷ 0xc24b8b70 ∷ 0xc76c51a3 ∷ 0xd192e819 ∷ 0xd6990624 ∷ 0xf40e3585 ∷ 0x106aa070 ∷ 0x19a4c116
    ∷ 0x1e376c08 ∷ 0x2748774c ∷ 0x34b0bcb5 ∷ 0x391c0cb3 ∷ 0x4ed8aa4a ∷ 0x5b9cca4f ∷ 0x682e6ff3
    ∷ 0x748f82ee ∷ 0x78a5636f ∷ 0x84c87814 ∷ 0x8cc70208 ∷ 0x90befffa ∷ 0xa4506ceb ∷ 0xbef9a3f7
    ∷ 0xc67178f2 ∷ []

-- `x + y` and `~x` of uint32_t, and the macros.
abbrev add32 : ℕ → ℕ → ℕ
add32 x y = (x + y) % 2 ^ 32

abbrev not32 : ℕ → ℕ
not32 x = 2 ^ 32 - 1 - x

abbrev rotright : ℕ → ℕ → ℕ
rotright x n = bit_or (x / 2 ^ n) (x * 2 ^ (32 - n) % 2 ^ 32)

abbrev ch : ℕ → ℕ → ℕ → ℕ
ch x y z = bit_xor (bit_and x y) (bit_and (not32 x) z)

abbrev maj : ℕ → ℕ → ℕ → ℕ
maj x y z = bit_xor (bit_xor (bit_and x y) (bit_and x z)) (bit_and y z)

abbrev ep0 : ℕ → ℕ
ep0 x = bit_xor (bit_xor (rotright x 2) (rotright x 13)) (rotright x 22)

abbrev ep1 : ℕ → ℕ
ep1 x = bit_xor (bit_xor (rotright x 6) (rotright x 11)) (rotright x 25)

abbrev sig0 : ℕ → ℕ
sig0 x = bit_xor (bit_xor (rotright x 7) (rotright x 18)) (x / 2 ^ 3)

abbrev sig1 : ℕ → ℕ
sig1 x = bit_xor (bit_xor (rotright x 17) (rotright x 19)) (x / 2 ^ 10)

-- The eight words of the state, and the locals `a` to `h`.
pub record Words : Type 0 where
  pub a : ℕ
  pub b : ℕ
  pub c : ℕ
  pub d : ℕ
  pub e : ℕ
  pub f : ℕ
  pub g : ℕ
  pub h : ℕ

-- The first sixteen words of the schedule.
unfoldable pub load_words : Bytes → List ℕ
load_words (p ∷ q ∷ r ∷ s ∷ rest) = (p * 2 ^ 24 + q * 2 ^ 16 + r * 2 ^ 8 + s) ∷ load_words rest
load_words _ = []

-- The loop that adds `n` words to the schedule.
unfoldable pub extend : ℕ → List ℕ → List ℕ
extend zero m = m
extend (suc n) m =
    let back = λ (k : ℕ). get_or m (length m - k) 0 in
    let word = add32 (add32 (add32 (sig1 (back 2)) (back 7)) (sig0 (back 15))) (back 16) in
    extend n (m ++ (word ∷ []))

unfoldable pub round : Words → ℕ → ℕ → Words
round s k m =
    let t1 = add32 (add32 (add32 (add32 s.h (ep1 s.e)) (ch s.e s.f s.g)) k) m in
    let t2 = add32 (ep0 s.a) (maj s.a s.b s.c) in
    record {
      a = add32 t1 t2;
      b = s.a;
      c = s.b;
      d = s.c;
      e = add32 s.d t1;
      f = s.e;
      g = s.f;
      h = s.g;
    }

unfoldable pub rounds : Words → List ℕ → List ℕ → Words
rounds s (k ∷ ks) (m ∷ ms) = rounds (round s k m) ks ms
rounds s _ _ = s

-- `fp_sha256_transform` on a block of 64 bytes.
unfoldable pub transform : Words → Bytes → Words
transform s block =
    let t = rounds s round_constants (extend 48 (load_words block)) in
    record {
      a = add32 s.a t.a;
      b = add32 s.b t.b;
      c = add32 s.c t.c;
      d = add32 s.d t.d;
      e = add32 s.e t.e;
      f = add32 s.f t.f;
      g = add32 s.g t.g;
      h = add32 s.h t.h;
    }

-- `fp_sha256_ctx`.
pub record Context : Type 0 where
  pub pending : Bytes
  pub bitlen : ℕ
  pub state : Words

abbrev pub initial_state : Words
initial_state = record {
  a = 0x6a09e667;
  b = 0xbb67ae85;
  c = 0x3c6ef372;
  d = 0xa54ff53a;
  e = 0x510e527f;
  f = 0x9b05688c;
  g = 0x1f83d9ab;
  h = 0x5be0cd19;
}

-- `fp_sha256_init`.
abbrev pub init : Context
init = record { pending = []; bitlen = 0; state = initial_state }

-- One round of the loop of `fp_sha256_update`.
unfoldable pub absorb : Context → ℕ → Context
absorb c byte =
    let block = c.pending ++ (byte ∷ []) in
    if length block == 64
    then record {
      pending = [];
      bitlen = (c.bitlen + 512) % 2 ^ 64;
      state = transform c.state block;
    }
    else record c { pending = block }

-- `fp_sha256_update`.
unfoldable pub update : Context → Bytes → Context
update c [] = c
update c (byte ∷ bytes) = update (absorb c byte) bytes

-- The bytes of a number below 2 ^ 64, and of a word, the highest first.
unfoldable pub be64 : ℕ → Bytes
be64 n =
    (n / 2 ^ 56 % 256)
    ∷ (n / 2 ^ 48 % 256)
    ∷ (n / 2 ^ 40 % 256)
    ∷ (n / 2 ^ 32 % 256)
    ∷ (n / 2 ^ 24 % 256)
    ∷ (n / 2 ^ 16 % 256)
    ∷ (n / 2 ^ 8 % 256)
    ∷ (n % 256)
    ∷ []

abbrev be32 : ℕ → Bytes
be32 n = (n / 2 ^ 24 % 256) ∷ (n / 2 ^ 16 % 256) ∷ (n / 2 ^ 8 % 256) ∷ (n % 256) ∷ []

unfoldable pub hash_bytes : Words → Bytes
hash_bytes s =
    be32 s.a
    ++ (be32 s.b ++ (be32 s.c ++ (be32 s.d ++ (be32 s.e ++ (be32 s.f ++ (be32 s.g ++ be32 s.h))))))

-- `fp_sha256_final`.
unfoldable pub final : Context → Bytes
final c =
    let datalen = length c.pending in
    let total = (c.bitlen + datalen * 8) % 2 ^ 64 in
    let full = c.pending ++ (0x80 ∷ replicate (63 - datalen) 0) in
    let one = c.pending ++ (0x80 ∷ (replicate (55 - datalen) 0 ++ be64 total)) in
    if ltb datalen 56
    then hash_bytes (transform c.state one)
    else hash_bytes (transform (transform c.state full) (replicate 56 0 ++ be64 total))

-- The three calls, as `fp_sha256_hex` and `fp_hmac_sha256` make them.
unfoldable pub sha256 : Bytes → Bytes
sha256 message = final (update init message)

abbrev pub block_size : ℕ
block_size = 64

-- `key_block` of `fp_hmac_sha256`.
unfoldable pub key_block : Bytes → Bytes
key_block key =
    let short = if ltb block_size (length key) then sha256 key else key in
    short ++ replicate (block_size - length short) 0

-- `fp_hmac_sha256`.
unfoldable pub hmac_sha256 : Bytes → Bytes → Bytes
hmac_sha256 key message =
    let o_key_pad = map (λ k. bit_xor k 0x5c) (key_block key) in
    let i_key_pad = map (λ k. bit_xor k 0x36) (key_block key) in
    let inner_hash = final (update (update init i_key_pad) message) in
    final (update (update init o_key_pad) inner_hash)

abbrev pub hex_char : ℕ → ℕ
hex_char n = get_or (codes "0123456789abcdef") n 0

-- The loop of `fp_sha256_hex`.
unfoldable pub hex_text : Bytes → Bytes
hex_text [] = []
hex_text (d ∷ ds) = hex_char (d / 16 % 16) ∷ hex_char (d % 16) ∷ hex_text ds

-- `fp_sha256_hex` with room for its 65 bytes.
unfoldable pub sha256_hex : Bytes → Bytes
unfolding hex_text
sha256_hex input = hex_text (sha256 input)
