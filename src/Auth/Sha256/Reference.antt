-- ===== src/Auth/Sha256/Reference.antt =====
-- The streaming of src/auth.c's SHA-256 against a hash of the whole message: pad it first, then fold
-- the code's own compression over its blocks. What the compression of one block computes is not
-- restated here; the test vectors run it.
use ferretptimize.Common.{
  ℕ, zero, suc, ◌+◌, ◌-◌, ◌*◌, ◌%◌, ◌^◌, ◌≤◌, ◌<◌, ◌≡◌, ◌∙◌, refl, sym, ap, Bool, true, false, [],
  ◌∷◌, ◌++◌, append_assoc, append-nil, ltb, ltb→lt, ◌==◌, if◌then◌else◌, length, length-append,
  length-replicate, length-drop, take, drop, take-append, drop-append, replicate, arith, Bool-cases,
  inl, inr,
}
use ferretptimize.Common.Bytes.{Bytes}
use ferretptimize.Auth.Sha256.{
  Words, Context, transform, initial_state, init, absorb, update, be64, hash_bytes, final, sha256,
  block_size,
}

-- The whole blocks of the bytes, with fuel for their number.
unfoldable pub compress : ℕ → Words → Bytes → Words
compress zero s bytes = s
compress (suc n) s bytes =
    let rest = compress n (transform s (take block_size bytes)) (drop block_size bytes) in
    if ltb (length bytes) block_size then s else rest

abbrev pub compress_all : Words → Bytes → Words
compress_all s bytes = compress (length bytes) s bytes

-- One 1 bit, as many 0 bits as it takes, and the message's length in bits.
abbrev pub padding : ℕ → Bytes
padding len = 0x80 ∷ (replicate ((119 - len % 64) % 64) 0 ++ be64 (len * 8 % 2 ^ 64))

-- The hash of the whole padded message, over the code's initial words and compression.
pub padded_sha256 : Bytes → Bytes
padded_sha256 message =
    hash_bytes (compress_all initial_state (message ++ padding (length message)))

compress_enough :
    (n m : ℕ) (s : Words) (bytes : Bytes)
    → length bytes ≤ n
    → length bytes ≤ m
    → compress n s bytes ≡ compress m s bytes
unfolding compress
compress_enough zero zero s bytes p q = refl
compress_enough zero (suc m) s bytes p q = ground arith
compress_enough (suc n) zero s bytes p q = ground arith
compress_enough (suc n) (suc m) s bytes p q =
    let block = take block_size bytes in
    let rest = drop block_size bytes in
    ground (arith, compress_enough n m (transform s block) rest, length-drop block_size bytes)

compress_all-block :
    (s : Words) (block rest : Bytes)
    → length block ≡ block_size
    → compress_all s (block ++ rest) ≡ compress_all (transform s block) rest
unfolding compress
compress_all-block s [] rest h = absurd (omega arith)
compress_all-block s (b ∷ block) rest h =
    let all = b ∷ (block ++ rest) in
    let long : ltb (length all) block_size ≡ false =
      ground (arith, length-append (b ∷ block) rest) in
    rw long (
      rw (take-append (b ∷ block) rest block_size h) (
        rw (drop-append (b ∷ block) rest block_size h) (
          compress_enough (length (block ++ rest)) (length rest) (transform s (b ∷ block)) rest
            (omega (arith, length-append block rest)) (omega arith))))

compress_all-short :
    (s : Words) (bytes : Bytes) → length bytes < block_size → compress_all s bytes ≡ s
unfolding compress
compress_all-short s [] h = refl
compress_all-short s (b ∷ bytes) h =
    let short : ltb (length (b ∷ bytes)) block_size ≡ true = ground (arith, h) in rw short refl

-- The context after a byte that fills a block, and after one that does not.
abbrev filled : Context → Bytes → Context
filled c block = record {
  pending = [];
  bitlen = (c.bitlen + 512) % 2 ^ 64;
  state = transform c.state block;
}

absorb-filled :
    (c : Context) (b : ℕ)
    → (length (c.pending ++ (b ∷ [])) == block_size) ≡ true
    → absorb c b ≡ filled c (c.pending ++ (b ∷ []))
unfolding absorb
absorb-filled c b e =
    ap
      (λ (t : Bool).
        if t
        then filled c (c.pending ++ (b ∷ []))
        else record c { pending = c.pending ++ (b ∷ []) })
      e

absorb-room :
    (c : Context) (b : ℕ)
    → (length (c.pending ++ (b ∷ [])) == block_size) ≡ false
    → absorb c b ≡ record c { pending = c.pending ++ (b ∷ []) }
unfolding absorb
absorb-room c b e =
    ap
      (λ (t : Bool).
        if t
        then filled c (c.pending ++ (b ∷ []))
        else record c { pending = c.pending ++ (b ∷ []) })
      e

length-snoc : (xs : Bytes) (b : ℕ) → length (xs ++ (b ∷ [])) ≡ length xs + 1
length-snoc xs b = omega (arith, length-append xs (b ∷ []))

-- What holds of a context that takes in bytes, `tail` standing for what follows them.
abbrev Takes : Context → Bytes → Bytes → Context → Type 0
Takes c bytes tail c' =
    (compress_all c.state (c.pending ++ (bytes ++ tail))
      ≡ compress_all c'.state (c'.pending ++ tail))
    × (length c'.pending < block_size)
    × ((c'.bitlen + length c'.pending * 8) % 2 ^ 64
        ≡ (c.bitlen + (length c.pending + length bytes) * 8) % 2 ^ 64)

update-Takes :
    (c : Context) (bytes tail : Bytes)
    → length c.pending < block_size
    → Takes c bytes tail (update c bytes)
unfolding update
update-Takes c [] tail h = (refl, h, omega arith)
update-Takes c (b ∷ bytes) tail h =
    let block = c.pending ++ (b ∷ []) in
    let joined : c.pending ++ (b ∷ (bytes ++ tail)) ≡ block ++ (bytes ++ tail) =
      sym (append_assoc c.pending (b ∷ []) (bytes ++ tail)) in
    let taken : Takes c (b ∷ bytes) tail (update (absorb c b) bytes) =
      elim (Bool-cases (length block == block_size)) [
        | inl full ↦
            let (same, low, bits) = update-Takes (filled c block) bytes tail (omega arith) in
            let size : length block ≡ block_size = ground (arith, full) in
            rw (absorb-filled c b full) (
              ap (compress_all c.state) joined
                  ∙ compress_all-block c.state block (bytes ++ tail) size
                  ∙ same,
              low,
              omega (arith, bits, size, length-snoc c.pending b),
            )
        | inr room ↦
            let size : length block < block_size =
              ground (arith, room, h, length-snoc c.pending b) in
            let (same, low, bits) = update-Takes (record c { pending = block }) bytes tail size in
            rw (absorb-room c b room) (
              ap (compress_all c.state) joined ∙ same,
              low,
              omega (arith, bits, length-snoc c.pending b),
            )
      ] in
    taken

update-bitlen :
    (c : Context) (bytes : Bytes) → c.bitlen % 512 ≡ 0 → (update c bytes).bitlen % 512 ≡ 0
unfolding update absorb
update-bitlen c [] h = h
update-bitlen c (b ∷ bytes) h =
    update-bitlen (absorb c b) bytes
      (elim (Bool-cases (length (c.pending ++ (b ∷ [])) == block_size)) [
        | inl e ↦ rw e (omega arith)
        | inr e ↦ rw e h
      ])

replicate-add : (m n b : ℕ) → replicate (m + n) b ≡ replicate m b ++ replicate n b
replicate-add zero n b = let sum : 0 + n ≡ n = omega arith in rw sum refl
replicate-add (suc m) n b =
    let sum : suc m + n ≡ suc (m + n) = omega arith in rw sum (ap (◌∷◌ b) (replicate-add m n b))

length-be64 : (n : ℕ) → length (be64 n) ≡ 8
unfolding be64
length-be64 n = refl

length-padded :
    (p t : Bytes) (k : ℕ)
    → length (p ++ (0x80 ∷ (replicate k 0 ++ t))) ≡ length p + 1 + k + length t
length-padded p t k = omega (
  arith,
  length-append p (0x80 ∷ (replicate k 0 ++ t)),
  length-append (replicate k 0) t,
  length-replicate {A = ℕ} k 0,
)

-- The padding that does not fit, split at the end of the block.
padded-two :
    (p t : Bytes) (j k : ℕ)
    → p ++ (0x80 ∷ (replicate (j + k) 0 ++ t))
      ≡ (p ++ (0x80 ∷ replicate j 0)) ++ (replicate k 0 ++ t)
padded-two p t j k = rw (replicate-add j k 0) (
    rw (append_assoc (replicate j 0) (replicate k 0) t)
      (sym (append_assoc p (0x80 ∷ replicate j 0) (replicate k 0 ++ t))))

compress_all-one :
    (s : Words) (block : Bytes)
    → length block ≡ block_size
    → compress_all s block ≡ transform s block
compress_all-one s block h =
    ap (compress_all s) (sym (append-nil block))
    ∙ compress_all-block s block [] h
    ∙ compress_all-short (transform s block) [] (omega arith)

-- The last block or two that `fp_sha256_final` builds are the padded rest.
final-compress :
    (c : Context) (total : ℕ)
    → length c.pending < block_size
    → total % 64 ≡ length c.pending
    → (c.bitlen + length c.pending * 8) % 2 ^ 64 ≡ total * 8 % 2 ^ 64
    → final c ≡ hash_bytes (compress_all c.state (c.pending ++ padding total))
unfolding final
final-compress c total h m bits =
    let len = length c.pending in
    let t = be64 (total * 8 % 2 ^ 64) in
    let full = c.pending ++ (0x80 ∷ replicate (63 - len) 0) in
    elim (Bool-cases (ltb len 56)) [
      | inl one ↦
          let zeros : (119 - total % 64) % 64 ≡ 55 - len = ground (arith, m, one) in
          let size : length (c.pending ++ (0x80 ∷ (replicate (55 - len) 0 ++ t))) ≡ block_size =
            omega (
              arith,
              length-padded c.pending t (55 - len),
              length-be64 (total * 8 % 2 ^ 64),
              ltb→lt len 56 one,
            ) in
          rw one (rw bits (rw zeros (ap hash_bytes (sym (compress_all-one c.state _ size)))))
      | inr two ↦
          let zeros : (119 - total % 64) % 64 ≡ 63 - len + 56 = ground (arith, m, two, h) in
          let size : length full ≡ block_size = omega (
            arith,
            length-append c.pending (0x80 ∷ replicate (63 - len) 0),
            length-replicate {A = ℕ} (63 - len) 0,
          ) in
          let last : length (replicate 56 0 ++ t) ≡ block_size =
            omega (arith, length-be64 (total * 8 % 2 ^ 64)) in
          rw two (
            rw bits (
              rw zeros (
                ap hash_bytes (
                  sym (
                    ap (compress_all c.state) (padded-two c.pending t (63 - len) 56)
                    ∙ compress_all-block c.state full (replicate 56 0 ++ t) size
                    ∙ compress_all-one (transform c.state full) (replicate 56 0 ++ t) last)))))
    ]

pub sha256_lem : (message : Bytes) → sha256 message ≡ padded_sha256 message
unfolding sha256 padded_sha256
sha256_lem message =
    let (same, low, bits) = update-Takes init message (padding (length message)) (omega arith) in
    let whole = update-bitlen init message (omega arith) in
    final-compress (update init message) (length message) low (omega (arith, low, bits, whole))
      (omega (arith, bits))
    ∙ ap hash_bytes (sym same)
