-- ===== src/Buffer/Append.antt =====
-- What an append does to a valid buffer, and that its doubling loop ends in time.
use ferretptimize.Common.{
  ℕ, zero, suc, ◌+◌, ◌*◌, ◌^◌, ◌≤◌, ◌<◌, ◌≡◌, refl, Bool, false, [], ◌++◌, none, some, ltb, leb,
  ◌==◌, if◌then◌else◌, length, length-append, arith, Bool-cases, inl, inr, ◌⊎◌,
}
use native.Mathlib.Nat.{pow-suc}
use ferretptimize.Common.Bytes.{Bytes}
use ferretptimize.Buffer.{Buffer, grow, doublings, reserve, append, png_append}

-- The text and its NUL fit, or nothing is allocated yet.
abbrev pub IsValid : Buffer → Type 0
IsValid b = (b.capacity ≡ 0) × (b.bytes ≡ []) ⊎ (length b.bytes < b.capacity)

-- With fuel for the doublings the loop reaches the required size, and not more than twice that.
grow_lem :
    (fuel capacity required : ℕ)
    → 0 < capacity
    → required ≤ capacity * 2 ^ fuel
    → (required ≤ grow fuel capacity required)
      × (capacity ≤ grow fuel capacity required)
      × ((grow fuel capacity required ≡ capacity) ⊎ (grow fuel capacity required < required * 2))
unfolding grow
grow_lem zero capacity required h k = ground arith
grow_lem (suc fuel) capacity required h k =
    ground (arith, grow_lem fuel (capacity * 2) required (omega arith), pow_step)
  where
    pow_step : capacity * 2 ^ suc fuel ≡ capacity * 2 * 2 ^ fuel
    pow_step = rw pow-suc (omega arith)

start : Buffer → ℕ
start b = if b.capacity == 0 then 1024 else b.capacity

-- The capacity that `fp_buffer_reserve` asks for.
abbrev wanted : Buffer → ℕ → ℕ
wanted b additional = grow doublings (start b) (length b.bytes + additional + 1)

wanted_lem :
    (b : Buffer) (additional : ℕ)
    → length b.bytes + additional < 2 ^ 63
    → (length b.bytes + additional < wanted b additional)
      × ((wanted b additional ≤ 1024)
          ⊎ (wanted b additional ≡ b.capacity)
          ⊎ (wanted b additional < (length b.bytes + additional + 1) * 2))
unfolding start
wanted_lem b additional h =
    ground (arith, grow_lem doublings (start b) (length b.bytes + additional + 1))

-- An append on a valid buffer either succeeds, and then the buffer holds the old bytes and the new
-- ones with room for the NUL, in a block of at most 1024 bytes, of the old size or less than twice
-- what is needed; or it fails because the allocator refused a block. Sizes stay below 2 ^ 63.
pub append_lem :
    (grants : ℕ → Bool) (b : Buffer) (text : Bytes)
    → IsValid b
    → length b.bytes + length text < 2 ^ 63
    → ((r : Buffer) × (append grants b text ≡ some r)
        × (r.bytes ≡ b.bytes ++ text)
        × (length r.bytes < r.capacity)
        × ((r.capacity ≤ 1024)
            ⊎ (r.capacity ≡ b.capacity)
            ⊎ (r.capacity < (length r.bytes + 1) * 2)))
      ⊎ ((append grants b text ≡ none) × (n : ℕ) × (grants n ≡ false))
unfolding append reserve start
append_lem grants b text v h =
    let n = wanted b (length text) in
    elim (Bool-cases (leb (length b.bytes + length text + 1) b.capacity)) [
      | inl fits ↦ inl (
        record { bytes = b.bytes ++ text; capacity = b.capacity },
        rw (fits, append),
        refl,
        ground (arith, length-append b.bytes text),
        inr (inl refl),
      )
      | inr short ↦ elim (Bool-cases (grants n)) [
        | inl yes_n ↦ inl (
          record { bytes = b.bytes ++ text; capacity = n },
          rw (short, yes_n, append),
          refl,
          ground (arith, length-append b.bytes text, wanted_lem b (length text)),
          ground (arith, length-append b.bytes text, wanted_lem b (length text)),
        )
        | inr no_n ↦ inr (rw (short, no_n, append), n, no_n)
      ]
    ]

png_start : Buffer → ℕ
png_start b = if b.capacity == 0 then 4096 else b.capacity

png_wanted_lem :
    (b : Buffer) (additional : ℕ)
    → length b.bytes + additional < 2 ^ 63
    → length b.bytes + additional ≤ grow doublings (png_start b) (length b.bytes + additional)
unfolding png_start
png_wanted_lem b additional h =
    ground (arith, grow_lem doublings (png_start b) (length b.bytes + additional))

-- The PNG writer's append on a buffer whose bytes fit its block: it succeeds with the old bytes and
-- the new ones inside the block, or it fails because the allocator refused one. Sizes stay below
-- 2 ^ 63.
pub png_append_lem :
    (grants : ℕ → Bool) (b : Buffer) (text : Bytes)
    → length b.bytes ≤ b.capacity
    → length b.bytes + length text < 2 ^ 63
    → ((r : Buffer) × (png_append grants b text ≡ some r)
        × (r.bytes ≡ b.bytes ++ text)
        × (length r.bytes ≤ r.capacity)
        × (b.capacity ≤ r.capacity))
      ⊎ ((png_append grants b text ≡ none) × (n : ℕ) × (grants n ≡ false))
unfolding png_append png_start
png_append_lem grants b text v h =
    let n = grow doublings (png_start b) (length b.bytes + length text) in
    elim (Bool-cases (ltb b.capacity (length b.bytes + length text))) [
      | inr fits ↦ inl (
        record { bytes = b.bytes ++ text; capacity = b.capacity },
        rw (fits, png_append),
        refl,
        ground (arith, length-append b.bytes text),
        omega arith,
      )
      | inl short ↦ elim (Bool-cases (grants n)) [
        | inl yes_n ↦ inl (
          record { bytes = b.bytes ++ text; capacity = n },
          rw (short, yes_n, png_append),
          refl,
          ground (arith, length-append b.bytes text, png_wanted_lem b (length text)),
          ground (arith, length-append b.bytes text, png_wanted_lem b (length text)),
        )
        | inr no_n ↦ inr (rw (short, no_n, png_append), n, no_n)
      ]
    ]
