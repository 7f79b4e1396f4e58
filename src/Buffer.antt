-- ===== src/Buffer.antt =====
-- `fp_buffer` of src/server.c, the growing byte buffer that every reply is built in, and
-- `fp_png_buffer` of src/compress_png.c, its twin under the PNG writer.
-- The allocator is a parameter: `grants n` says whether `realloc` gives a block of `n` bytes.
pub mod Append
mod Tests
use ferretptimize.Common.{
  ℕ, zero, suc, ◌+◌, ◌*◌, Bool, true, false, List, [], ◌∷◌, ◌++◌, Option, none, some, ltb, leb,
  ◌==◌, if◌then◌else◌, length,
}
use ferretptimize.Common.Bytes.{Bytes}

-- `size` is the length of `bytes`; the NUL behind the last byte is not kept.
pub record Buffer : Type 0 where
  pub bytes : Bytes
  pub capacity : ℕ

abbrev pub empty : Buffer
empty = record { bytes = []; capacity = 0 }

-- `while (capacity < required) capacity *= 2;`, on fuel.
unfoldable pub grow : ℕ → ℕ → ℕ → ℕ
grow zero capacity required = capacity
grow (suc fuel) capacity required =
    let next = grow fuel (capacity * 2) required in if ltb capacity required then next else capacity

-- Enough doublings for any size below 2 ^ 63.
abbrev pub doublings : ℕ
doublings = 63

module _ (grants : ℕ → Bool) where
  -- `fp_buffer_reserve`: none stands for -1, and then the buffer is as it was.
  unfoldable pub reserve : Buffer → ℕ → Option Buffer
  reserve b additional =
      let required = length b.bytes + additional + 1 in
      let capacity = grow doublings (if b.capacity == 0 then 1024 else b.capacity) required in
      if leb required b.capacity
      then some b
      else if grants capacity
      then some (record b { capacity = capacity })
      else none

  -- `fp_buffer_append`.
  unfoldable pub append : Buffer → Bytes → Option Buffer
  append b text = elim (reserve b (length text)) [
    | some r ↦ some (record r { bytes = r.bytes ++ text })
    | none ↦ none
  ]

  -- `fp_buffer_append_char`.
  unfoldable pub append_char : Buffer → ℕ → Option Buffer
  append_char b c = append b (c ∷ [])

  -- `fp_png_buffer_append`: no byte is kept for a NUL, and an empty buffer starts at 4096.
  pub png_append : Buffer → Bytes → Option Buffer
  png_append b text =
      let required = length b.bytes + length text in
      let capacity = grow doublings (if b.capacity == 0 then 4096 else b.capacity) required in
      if ltb b.capacity required
      then if grants capacity
        then some (record { bytes = b.bytes ++ text; capacity = capacity })
        else none
      else some (record b { bytes = b.bytes ++ text })
