-- ===== src/Queue/Slots.antt =====
-- The invariant of a queue that no call is inside of, and the positions that share a slot.
use ferretptimize.Common.{ℕ, ◌+◌, ◌%◌, ◌^◌, ◌≤◌, ◌<◌, ◌≡◌, ◌≢◌, arith, length}
use ferretptimize.Queue.{Queue, slot_at}
use native.Mathlib.Nat.{div-add-mod}

-- Two positions less than a round apart lie in different slots.
pub mod-ne : (a b c : ℕ) → a < b → b < a + c → b % c ≢ a % c
mod-ne a b c h k e = grind (arith, div-add-mod a c, div-add-mod b c)

-- A round further is the same slot.
pub mod-add_self : (a c : ℕ) → (a + c) % c ≡ a % c
mod-add_self a c = grind arith

-- Positions from `head` to `tail` are filled, the rest of the round is free. Two slots are the
-- least that the sequence numbers can tell apart, and the counters stay clear of the sign bit.
pub record IsValid (q : Queue) : Type 0 where
  pub room : 2 ≤ q.capacity
  pub size : length q.slots ≡ q.capacity
  pub order : q.head ≤ q.tail
  pub within : q.tail ≤ q.head + q.capacity
  pub small : q.tail + q.capacity < 2 ^ 63
  pub free : (p : ℕ) → q.tail ≤ p → p < q.head + q.capacity → (slot_at q p).seq ≡ p
  pub full : (p : ℕ) → q.head ≤ p → p < q.tail → (slot_at q p).seq ≡ p + 1
