-- ===== src/Server/Headers.antt =====
-- How src/server.c reads a request from its socket: `fp_find_header_boundary`, `fp_read_header_block`
-- and the part of `fp_handle_client` that reads the body. The client's bytes are a stream, and each
-- call of `recv` gives as many of them as the system chooses.
pub mod Boundary
pub mod Received
mod Tests
use ferretptimize.Common.{
  ℕ, zero, suc, ◌+◌, ◌-◌, ◌*◌, min, Bool, true, false, not, ◌&&◌, Option, none, some, List, [], ◌∷◌,
  ◌++◌, leb, ltb, ◌==◌, if◌then◌else◌, length, take, drop,
}
use ferretptimize.Common.Bytes.{Bytes}

-- The loop of `fp_find_header_boundary`, from index `at` on.
unfoldable pub boundary_from : ℕ → Bytes → Option ℕ
boundary_from at (a ∷ b ∷ c ∷ d ∷ s) =
    let later = boundary_from (at + 1) (b ∷ c ∷ d ∷ s) in
    if a == 13 && b == 10 && c == 13 && d == 10 then some (at + 4) else later
boundary_from at _ = none

-- `fp_find_header_boundary`: the length of the header block, none for -1.
abbrev pub find_header_boundary : Bytes → Option ℕ
find_header_boundary buffer = boundary_from 0 buffer

-- `FP_MIN_BUFFER`, `FP_MAX_HEADER` and `FP_MAX_UPLOAD`.
abbrev pub min_buffer : ℕ
min_buffer = 4096

abbrev pub max_header : ℕ
max_header = 65536

abbrev pub max_upload : ℕ
max_upload = 104857600

-- What a round of the loop meets: whether `realloc` succeeds, and how much `recv` may give.
pub record Round : Type 0 where
  pub grown : Bool
  pub granted : ℕ

-- `recv` into `room` bytes: what it gives, nothing at the end of the stream.
abbrev pub recv : ℕ → ℕ → Bytes → Bytes
recv room granted stream = take (min room granted) stream

-- What the loop of `fp_read_header_block` leaves: the buffer, the length of the header block and the
-- stream behind the buffer.
pub record Block : Type 0 where
  pub buffer : Bytes
  pub header_len : ℕ
  pub stream : Bytes

-- `if (capacity - len < FP_MIN_BUFFER)`.
abbrev pub is_short : ℕ → Bytes → Bool
is_short capacity buffer = ltb (capacity - length buffer) min_buffer

abbrev pub grown_capacity : ℕ → Bytes → ℕ
grown_capacity capacity buffer = if is_short capacity buffer then capacity * 2 else capacity

-- The loop of `fp_read_header_block`, none for -1. Where no round is left, `recv` fails.
unfoldable pub read_loop : List Round → ℕ → Bytes → Bytes → Option Block
read_loop [] capacity buffer stream = none
read_loop (r ∷ rounds) capacity buffer stream =
    let capacity' = grown_capacity capacity buffer in
    let received = recv (capacity' - length buffer) r.granted stream in
    let buffer' = buffer ++ received in
    let stream' = drop (length received) stream in
    let later = read_loop rounds capacity' buffer' stream' in
    if leb max_header (length buffer)
    then none
    else if is_short capacity buffer && not r.grown
    then none
    else if length received == 0
    then none
    else elim (find_header_boundary buffer') [
      | some boundary ↦ some (record { buffer = buffer'; header_len = boundary; stream = stream' })
      | none ↦ later
    ]

-- `fp_read_header_block`; the flag says whether `malloc` succeeds.
unfoldable pub read_header_block : Bool → List Round → Bytes → Option Block
read_header_block allocated rounds stream =
    if allocated then read_loop rounds min_buffer [] stream else none

-- The loop of `fp_handle_client` that reads `missing` more bytes of the body, with what `recv` may give
-- each time.
unfoldable pub read_rest : List ℕ → ℕ → Bytes → Option Bytes
read_rest grants zero stream = some []
read_rest [] (suc n) stream = none
read_rest (granted ∷ grants) (suc n) stream =
    let received = recv (suc n) granted stream in
    let later = read_rest grants (suc n - length received) (drop (length received) stream) in
    if length received == 0
    then none
    else elim later [ none ↦ none | some rest ↦ some (received ++ rest) ]

-- What `fp_handle_client` has of the body of a request.
pub data Body : Type 0 where
  no_body : Body
  too_large : Body  -- 413
  no_memory : Body  -- 500
  cut_off : Body  -- 400
  got_body : Bytes → Body

unfoldable pub receive_body : Bool → List ℕ → ℕ → Block → Body
receive_body allocated grants zero block = no_body
receive_body allocated grants (suc n) block =
    let content_length = suc n in
    let in_buffer = length block.buffer - block.header_len in
    let copied = take (min in_buffer content_length) (drop block.header_len block.buffer) in
    if ltb max_upload content_length
    then too_large
    else if not allocated
    then no_memory
    else elim (read_rest grants (content_length - length copied) block.stream) [
      | none ↦ cut_off
      | some rest ↦ got_body (copied ++ rest)
    ]
