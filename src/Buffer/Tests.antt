-- ===== src/Buffer/Tests.antt =====
-- The buffer's theorems at concrete inputs.
use ferretptimize.Common.{
  ℕ, ◌+◌, ◌*◌, ◌≤◌, ◌<◌, ◌≡◌, refl, arith, Bool, some, none, false, length, leb, ◌⊎◌, inl,
}
use ferretptimize.Common.Bytes.{codes}
use ferretptimize.Buffer.{Buffer, empty, append, reserve, grow}
use ferretptimize.Buffer.Append.{append_lem}

-- An allocator with two kilobytes.
abbrev small : ℕ → Bool
small n = leb n 2048

append_runs :
    append small empty (codes "ok") ≡ some (record { bytes = codes "ok"; capacity = 1024 })
unfolding append reserve grow
append_runs = refl

append_lem_example :
    ((r : Buffer) × (append small empty (codes "ok") ≡ some r)
      × (r.bytes ≡ codes "ok")
      × (length r.bytes < r.capacity)
      × ((r.capacity ≤ 1024) ⊎ (r.capacity ≡ 0) ⊎ (r.capacity < (length r.bytes + 1) * 2)))
    ⊎ ((append small empty (codes "ok") ≡ none) × (n : ℕ) × (small n ≡ false))
append_lem_example = append_lem small empty (codes "ok") (inl (refl, refl)) (omega arith)
