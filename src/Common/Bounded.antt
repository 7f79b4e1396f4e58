-- ===== src/Common/Bounded.antt =====
-- Facts about a range of numbers, by evaluation at each of them.
use Prim.Native.Nat.{ℕ, zero, suc, ◌+◌, ◌≤◌, ◌<◌}
use mathlib.Core.Path.{◌≡◌}
use mathlib.Core.Bool.{Bool, true, false}
use native.Mathlib.Omega.{arith}
use ferretptimize.Common.Tests.{if◌then◌else◌}

-- The test holds of the `count` numbers from `start` on.
unfoldable pub holds_on : (start count : ℕ) → (ℕ → Bool) → Bool
holds_on start zero test = true
holds_on start (suc count) test =
    let further = holds_on (start + 1) count test in if test start then further else false

pub holds_on_lem :
    (start count : ℕ) (test : ℕ → Bool) (i : ℕ)
    → holds_on start count test ≡ true
    → start ≤ i
    → i < start + count
    → test i ≡ true
unfolding holds_on
holds_on_lem start zero test i all lo hi = absurd (omega arith)
holds_on_lem start (suc count) test i all lo hi =
    grind (arith, holds_on_lem (start + 1) count test i)
