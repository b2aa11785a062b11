-- ===== src/Base/Counting.antt =====
-- How often an index stands in a list, and lists of indices below a bound.
use Prim.Native.Nat.{ℕ, ◌+◌, ◌≤◌, ◌<◌}
use mathlib.Core.List.{List, [], ◌∷◌}
use native.Mathlib.Omega.{arith}
use cppcourse.Base.Compare.{◌==◌, if◌then◌else◌}
use cppcourse.Base.Lists.{length}

unfoldable pub count : ℕ → List ℕ → ℕ
count i [] = 0
count i (j ∷ js) = (if i == j then 1 else 0) + count i js

pub count-le-length : (i : ℕ) (js : List ℕ) → count i js ≤ length js
unfolding count
count-le-length i [] = omega arith
count-le-length i (j ∷ js) = ground (arith, count-le-length i js)

abbrev pub AllBelow : ℕ → List ℕ → Type 0
AllBelow n [] = Unit
AllBelow n (i ∷ is) = (i < n) × AllBelow n is
