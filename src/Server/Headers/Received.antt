-- ===== src/Server/Headers/Received.antt =====
-- What src/server.c receives does not depend on how the system cuts the stream.
use ferretptimize.Common.{
  ℕ, zero, suc, ◌+◌, ◌-◌, ◌≤◌, ◌<◌, ◌≡◌, ◌∙◌, refl, sym, ap, true, false, not, ◌&&◌, some, List, [],
  ◌∷◌, ◌++◌, append_assoc, length, take, drop, length-append, length-take, length-drop, arith,
  Option-cases, inl, inr, ltb, leb, ◌==◌, All, min,
}
use ferretptimize.Common.Bytes.{Bytes}
use ferretptimize.Server.Headers.{
  find_header_boundary, min_buffer, max_header, max_upload, Round, recv, Block, is_short,
  grown_capacity, read_loop, read_header_block, read_rest, got_body, receive_body,
}
use ferretptimize.Server.Headers.Boundary.{boundary_from-bounds, boundary-part, boundary-ahead}

take-drop : (n : ℕ) (s : Bytes) → take n s ++ drop (length (take n s)) s ≡ s
take-drop zero s = refl
take-drop (suc n) [] = refl
take-drop (suc n) (c ∷ s) = ap (◌∷◌ c) (take-drop n s)

-- A part of what is to be taken, and then the rest of it.
take-rest :
    (k n : ℕ) (s : Bytes)
    → k ≤ n
    → take k s ++ take (n - length (take k s)) (drop (length (take k s)) s) ≡ take n s
take-rest zero n s h = let whole : n - 0 ≡ n = omega arith in ap (λ (m : ℕ). take m s) whole
take-rest (suc k) zero s h = absurd (omega arith)
take-rest (suc k) (suc n) [] h =
    let whole : suc n - 0 ≡ suc n = omega arith in ap (λ (m : ℕ). take m []) whole
take-rest (suc k) (suc n) (c ∷ s) h =
    let fewer : suc n - suc (length (take k s)) ≡ n - length (take k s) = omega arith in
    ap (◌∷◌ c) (
      ap (λ (m : ℕ). take k s ++ take m (drop (length (take k s)) s)) fewer
      ∙ take-rest k n s (omega (arith, h)))

drop-part : (n : ℕ) (u v : Bytes) → n ≤ length u → drop n u ++ v ≡ drop n (u ++ v)
drop-part zero u v h = refl
drop-part (suc n) [] v h = absurd (omega arith)
drop-part (suc n) (c ∷ u) v h = drop-part n u v (omega (arith, h))

take-min : (n : ℕ) (u : Bytes) → take (min (length u) n) u ≡ take n u
take-min zero u = let least : min (length u) 0 ≡ 0 = omega arith in ap (λ (m : ℕ). take m u) least
take-min (suc n) [] = let least : min 0 (suc n) ≡ 0 = omega arith in ap (λ (m : ℕ). take m []) least
take-min (suc n) (c ∷ u) =
    let both : min (suc (length u)) (suc n) ≡ suc (min (length u) n) = omega arith in
    ap (λ (m : ℕ). take m (c ∷ u)) both ∙ ap (◌∷◌ c) (take-min n u)

take-both : (n : ℕ) (u v : Bytes) → take n u ++ take (n - length (take n u)) v ≡ take n (u ++ v)
take-both zero u v = refl
take-both (suc n) [] v =
    let whole : suc n - 0 ≡ suc n = omega arith in ap (λ (m : ℕ). take m v) whole
take-both (suc n) (c ∷ u) v =
    let fewer : suc n - suc (length (take n u)) ≡ n - length (take n u) = omega arith in
    ap (◌∷◌ c) (ap (λ (m : ℕ). take n u ++ take m v) fewer ∙ take-both n u v)

-- What is copied from the buffer, and then the rest.
take-copied :
    (n k : ℕ) (u v : Bytes)
    → k ≡ length u
    → take (min k n) u ++ take (n - length (take (min k n) u)) v ≡ take n (u ++ v)
take-copied n k u v e =
    let copied : take (min k n) u ≡ take n u = ap (λ (m : ℕ). take (min m n) u) e ∙ take-min n u in
    ap (λ (t : Bytes). t ++ take (n - length t) v) copied ∙ take-both n u v

-- A round in which `realloc` succeeds and `recv` gives something.
abbrev pub Willing : Round → Type 0
Willing r = (r.grown ≡ true) × (0 < r.granted)

-- The block ends at `n`, and no byte of the stream is lost.
pub record IsBlock (b : Block) (n : ℕ) (whole : Bytes) : Type 0 where
  pub ends : b.header_len ≡ n
  pub inside : n ≤ length b.buffer
  pub kept : b.buffer ++ b.stream ≡ whole

-- Between two rounds.
record Reading (capacity : ℕ) (buffer stream : Bytes) (n : ℕ) (whole : Bytes) : Type 0 where
  room : min_buffer ≤ capacity
  within : length buffer ≤ capacity
  together : buffer ++ stream ≡ whole
  ahead : length buffer < n

read_loop-IsBlock :
    (rounds : List Round) (capacity : ℕ) (buffer stream whole : Bytes) (n : ℕ)
    → find_header_boundary whole ≡ some n
    → n ≤ max_header
    → All Willing rounds
    → n ≤ length buffer + length rounds
    → Reading capacity buffer stream n whole
    → (b : Block) × (read_loop rounds capacity buffer stream ≡ some b) × IsBlock b n whole
unfolding read_loop
read_loop-IsBlock [] capacity buffer stream whole n found small willing enough at =
    absurd (omega (arith, enough, at.ahead))
read_loop-IsBlock (r ∷ rounds) capacity buffer stream whole n found small willing enough at =
    let capacity' = grown_capacity capacity buffer in
    let room = capacity' - length buffer in
    let received = recv room r.granted stream in
    let buffer' = buffer ++ received in
    let stream' = drop (length received) stream in
    let wide : (min_buffer ≤ room) × (min_buffer ≤ capacity') =
      ground (arith, at.room, at.within) in
    let together : buffer' ++ stream' ≡ whole =
      append_assoc buffer received stream'
      ∙ ap (λ (t : Bytes). buffer ++ t) (take-drop (min room r.granted) stream)
      ∙ at.together in
    let total : length buffer + length stream ≡ length whole =
      sym (length-append buffer stream) ∙ ap length at.together in
    let size : length received ≡ min (min room r.granted) (length stream) =
      length-take (min room r.granted) stream in
    let bounds = boundary_from-bounds 0 n whole found in
    let longer : length buffer' ≡ length buffer + length received = length-append buffer received in
    let more : 0 < length received =
      omega (arith, size, wide, willing.0.1, total, bounds, at.ahead) in
    let open_header : leb max_header (length buffer) ≡ false = ground (arith, small, at.ahead) in
    let has_memory : (is_short capacity buffer && not r.grown) ≡ false =
      ground (arith, willing.0.0) in
    let some_received : (length received == 0) ≡ false = ground (arith, more) in
    elim (Option-cases (find_header_boundary buffer')) [
      | inr (boundary, here) ↦
          let block : Block = record {
            buffer = buffer';
            header_len = boundary;
            stream = stream';
          } in
          let end : boundary ≡ n =
            boundary-part buffer' stream' whole n boundary together found here in
          (
            block,
            rw (read_loop, open_header, has_memory, some_received, here) refl,
            record {
              ends = end;
              inside = omega (arith, end, boundary_from-bounds 0 boundary buffer' here);
              kept = together;
            },
          )
      | inl not_yet ↦
          let ahead : length buffer' < n =
            boundary-ahead buffer' stream' whole n together found not_yet in
          let (b, e, k) =
            read_loop-IsBlock rounds capacity' buffer' stream' whole n found small willing.1
              (omega (arith, enough, longer, more))
              (record {
                room = wide.1;
                within = omega (arith, longer, size, wide, at.within);
                together = together;
                ahead = ahead;
              }) in
          (b, rw (read_loop, open_header, has_memory, some_received, not_yet) e, k)
    ]

-- For a stream whose header block ends at `n`, at most 65536 bytes in, however few bytes each call of
-- `recv` gives, as long as each gives some and memory does not run out: fp_read_header_block returns the
-- length `n`, with the bytes up to it in the buffer, and the buffer and what is still to be received
-- make up the stream.
pub read_header_block-IsBlock :
    (rounds : List Round) (stream : Bytes) (n : ℕ)
    → find_header_boundary stream ≡ some n
    → n ≤ max_header
    → All Willing rounds
    → n ≤ length rounds
    → (b : Block) × (read_header_block true rounds stream ≡ some b) × IsBlock b n stream
unfolding read_header_block
read_header_block-IsBlock rounds stream n found small willing enough =
    read_loop-IsBlock rounds min_buffer [] stream stream n found small willing
      (omega (arith, enough))
      (record {
        room = omega arith;
        within = omega arith;
        together = refl;
        ahead = omega (arith, boundary_from-bounds 0 n stream found);
      })

-- The rest of a body, however it is cut.
read_rest-take :
    (grants : List ℕ) (missing : ℕ) (stream : Bytes)
    → missing ≤ length stream
    → All (λ g. 0 < g) grants
    → missing ≤ length grants
    → read_rest grants missing stream ≡ some (take missing stream)
unfolding read_rest
read_rest-take grants zero stream h willing enough = refl
read_rest-take [] (suc n) stream h willing enough = absurd (omega arith)
read_rest-take (g ∷ grants) (suc n) stream h willing enough =
    let received = recv (suc n) g stream in
    let size : length received ≡ min (min (suc n) g) (length stream) =
      length-take (min (suc n) g) stream in
    let some_received : (length received == 0) ≡ false = ground (arith, size, willing.0, h) in
    let later =
      read_rest-take grants (suc n - length received) (drop (length received) stream)
        (omega (arith, length-drop (length received) stream, h, size)) willing.1
        (omega (arith, size, willing.0, h, enough)) in
    rw (read_rest, some_received, later)
      (ap some (take-rest (min (suc n) g) (suc n) stream (omega arith)))

-- The body is the `content_length` bytes of the stream behind the header block, however few bytes each
-- call of `recv` gives, for any length up to 100 MB that the stream has.
pub receive_body-take :
    (grants : List ℕ) (content_length n : ℕ) (block : Block) (stream : Bytes)
    → IsBlock block n stream
    → 0 < content_length
    → content_length ≤ max_upload
    → n + content_length ≤ length stream
    → All (λ g. 0 < g) grants
    → content_length ≤ length grants
    → receive_body true grants content_length block ≡ got_body (take content_length (drop n stream))
unfolding receive_body
receive_body-take grants zero n block stream b some_length small whole willing enough =
    absurd (omega arith)
receive_body-take grants (suc m) n block stream b some_length small whole willing enough =
    let in_buffer = length block.buffer - block.header_len in
    let copied = take (min in_buffer (suc m)) (drop block.header_len block.buffer) in
    let missing = suc m - length copied in
    let fits : ltb max_upload (suc m) ≡ false = ground (arith, small) in
    let size : length copied ≡ min (min in_buffer (suc m)) in_buffer =
      length-take (min in_buffer (suc m)) (drop block.header_len block.buffer)
      ∙ ap (min (min in_buffer (suc m))) (length-drop block.header_len block.buffer) in
    let total : length block.buffer + length block.stream ≡ length stream =
      sym (length-append block.buffer block.stream) ∙ ap length b.kept in
    let rest : read_rest grants missing block.stream ≡ some (take missing block.stream) =
      read_rest-take grants missing block.stream
        (omega (arith, size, total, whole, b.ends, b.inside)) willing (omega (arith, enough)) in
    let behind : drop block.header_len block.buffer ++ block.stream ≡ drop n stream =
      drop-part block.header_len block.buffer block.stream (omega (arith, b.ends, b.inside))
      ∙ ap (drop block.header_len) b.kept
      ∙ ap (λ (k : ℕ). drop k stream) b.ends in
    rw (receive_body, fits, rest)
      (ap got_body (
        take-copied (suc m) in_buffer (drop block.header_len block.buffer) block.stream
          (sym (length-drop block.header_len block.buffer))
        ∙ ap (take (suc m)) behind))
