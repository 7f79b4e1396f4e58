-- ===== src/Auth/Sha256/Hmac.antt =====
-- HMAC of src/auth.c as one hash of a hash.
use Prim.Native.Nat.{bit_xor}
use ferretptimize.Common.{
  ℕ, ◌-◌, ◌+◌, ◌*◌, ◌^◌, ◌%◌, All, Bool-cases, inl, inr, arith, ◌≡◌, ◌∙◌, refl, ap, [], ◌∷◌, ◌++◌,
  map, ltb, if◌then◌else◌, length, replicate,
}
use ferretptimize.Common.Bytes.{Bytes, IsByte}
use ferretptimize.Auth.Sha256.{
  Context, Words, hash_bytes, transform, be64, init, absorb, update, final, sha256, block_size,
  key_block, hmac_sha256,
}
use ferretptimize.Auth.Sha256.Reference.{padded_sha256, sha256_lem}

update-append : (c : Context) (a b : Bytes) → update (update c a) b ≡ update c (a ++ b)
unfolding update
update-append c [] b = refl
update-append c (x ∷ a) b = update-append (absorb c x) a b

final-two : (a b : Bytes) → final (update (update init a) b) ≡ padded_sha256 (a ++ b)
unfolding sha256
final-two a b = ap final (update-append init a b) ∙ sha256_lem (a ++ b)

abbrev pub xor_with : ℕ → Bytes → Bytes
xor_with mask key = map (λ k. bit_xor k mask) key

-- HMAC is the hash of the outer key block and the hash of the inner one and the message, each hash
-- that of the whole padded message; the key block is the key, or its hash when it is longer than a block, with zeros up
-- to 64 bytes.
pub hmac_lem :
    (key message : Bytes)
    → let block = key_block key in
      (hmac_sha256 key message
        ≡ padded_sha256 (xor_with 0x5c block ++ padded_sha256 (xor_with 0x36 block ++ message)))
      × (block ≡ (
          let short = if ltb block_size (length key) then padded_sha256 key else key in
          short ++ replicate (block_size - length short) 0))
unfolding hmac_sha256 key_block
hmac_lem key message =
    let block = key_block key in
    let inner = final-two (xor_with 0x36 block) message in
    (
      ap (λ (hash : Bytes). final (update (update init (xor_with 0x5c block)) hash)) inner
          ∙ final-two (xor_with 0x5c block) (padded_sha256 (xor_with 0x36 block ++ message)),
      ap
          (λ (hash : Bytes).
            let short = if ltb block_size (length key) then hash else key in
            short ++ replicate (block_size - length short) 0)
          (sha256_lem key),
    )

hash_bytes-IsByte : (s : Words) → All IsByte (hash_bytes s)
unfolding hash_bytes
hash_bytes-IsByte s = ground arith

final-IsByte : (c : Context) → All IsByte (final c)
unfolding final
final-IsByte c =
    let datalen = length c.pending in
    let total = (c.bitlen + datalen * 8) % 2 ^ 64 in
    let full = c.pending ++ (0x80 ∷ replicate (63 - datalen) 0) in
    let one = c.pending ++ (0x80 ∷ (replicate (55 - datalen) 0 ++ be64 total)) in
    elim (Bool-cases (ltb datalen 56)) [
      | inl fits ↦ rw fits (hash_bytes-IsByte (transform c.state one))
      | inr spills ↦
          rw spills
            (hash_bytes-IsByte (transform (transform c.state full) (replicate 56 0 ++ be64 total)))
    ]

pub hmac_sha256-IsByte : (key message : Bytes) → All IsByte (hmac_sha256 key message)
unfolding hmac_sha256
hmac_sha256-IsByte key message = final-IsByte _
