-- ===== src/Debugging/Search.antt =====
-- content/exercises/f4/02-gdb-logic/starter.c.
pub mod Binary
pub mod Scan
use cppcourse.Base.{
  ℕ, zero, suc, ◌+◌, ◌-◌, ◌/◌, ◌==◌, leb, ltb, List, Option, none, some, get_elem?,
}
use cppcourse.Base.{if◌then◌else◌}
use cppcourse.Base.Checked.{◌>>=◌}
use cppcourse.Base.Int.{to_int}
use cppcourse.Base.Int.{
  ℤ, pos, negsuc, sub_ℕ, pos_part, ◌+ℤ◌, ◌-ℤ◌, leb_ℤ, ltb_ℤ, eqb_ℤ, in_int, int,
}

-- `arr[i]` at an `int` index.
abbrev pub at : List ℤ → ℤ → Option ℤ
at arr (pos i) = get_elem? arr i
at arr (negsuc i) = none

-- `n / 2`, which C rounds towards 0.
abbrev pub half : ℤ → ℤ
half (pos n) = pos (n / 2)
half (negsuc n) = sub_ℕ 0 (suc n / 2)

-- The `while` loop on `lo` and `hi`.
unfoldable pub search_loop : ℕ → List ℤ → ℤ → ℤ → ℤ → Option ℤ
unfolding ◌+ℤ◌ ◌-ℤ◌
search_loop zero arr val lo hi = none
search_loop (suc fuel) arr val lo hi =
    if leb_ℤ lo hi
    then (do
      width ← int (hi -ℤ lo)
      mid ← int (lo +ℤ half width)
      x ← at arr mid
      if eqb_ℤ x val
          then int (mid +ℤ pos 1)
          else (if ltb_ℤ x val
              then (do lo' ← int (mid +ℤ pos 1); search_loop fuel arr val lo' hi)
              else (do hi' ← int (mid -ℤ pos 1); search_loop fuel arr val lo hi')))
    else some (negsuc 0)

-- One round more than there are elements is enough.
unfoldable pub binary_search : List ℤ → ℤ → ℤ → Option ℤ
unfolding ◌-ℤ◌
binary_search arr n val = do
  hi ← int (n -ℤ pos 1)
  search_loop (suc (pos_part n)) arr val (pos 0) hi

-- `fib` at `n ≥ 0`.
unfoldable pub fib_rec : ℕ → Option ℤ
unfolding ◌+ℤ◌
fib_rec zero = some (pos 1)
fib_rec (suc zero) = some (pos 1)
fib_rec (suc (suc n)) = do a ← fib_rec (suc n); b ← fib_rec n; int (a +ℤ b)

unfoldable pub fib : ℤ → Option ℤ
fib (negsuc n) = some (negsuc 0)
fib (pos n) = fib_rec n

-- The `for` loop at `i`, with `len - i` rounds left.
unfoldable pub find_loop : ℕ → ℕ → List ℕ → ℕ → Option ℤ
find_loop zero i s c = some (negsuc 0)
find_loop (suc left) i s c = do
  x ← get_elem? s i
  let rest = find_loop left (i + 1) s c
  if x == c then some (to_int i) else rest

unfoldable pub str_find_char : List ℕ → ℕ → ℕ → Option ℤ
str_find_char s len c = find_loop (len - 1) 1 s c
