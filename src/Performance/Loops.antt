-- ===== src/Performance/Loops.antt =====
-- content/exercises/c6/01-branchless/starter.cpp and content/exercises/c6/02-soa-transform/starter.cpp, as
-- they stand.
use cppcourse.Base.{ℕ, List}
use cppcourse.Base.Int.{ℤ, negsuc}

unfoldable pub bl_min : ℤ → ℤ → ℤ
bl_min a b = negsuc 0

unfoldable pub bl_max : ℤ → ℤ → ℤ
bl_max a b = negsuc 0

unfoldable pub bl_abs : ℤ → ℤ
bl_abs x = negsuc 0

unfoldable pub bl_clamp : ℤ → ℤ → ℤ → ℤ
bl_clamp x lo hi = negsuc 0

unfoldable pub bl_select : ℤ → ℤ → ℤ → ℤ
bl_select c a b = negsuc 0

unfoldable pub bl_sign : ℤ → ℤ
bl_sign x = negsuc 1

unfoldable pub bl_count_ge : List ℤ → ℤ → ℤ → ℤ
bl_count_ge a n t = negsuc 0

-- The arrays `x` and `y` after it.
unfoldable pub soa_advance : List ℤ → List ℤ → List ℤ → List ℤ → ℤ → ℤ → List ℤ × List ℤ
soa_advance x y vx vy n dt = (x, y)

unfoldable pub soa_count_in_box : List ℤ → List ℤ → ℤ → ℤ → ℤ → ℤ → ℤ → ℤ
soa_count_in_box x y n x0 y0 x1 y1 = negsuc 0

unfoldable pub soa_sum_active_vx : List ℤ → List ℕ → ℤ → ℤ
soa_sum_active_vx vx alive n = negsuc 0
