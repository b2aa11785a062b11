-- ===== src/Concurrency/Counters.antt =====
-- content/exercises/c1/04-false-sharing/starter.cpp: two counters that several threads increment. Each
-- `inc` is one atomic step; the counters are kept as 64-bit words. `none` is an index out of range.
pub mod Totals
use cppcourse.Base.{
  ℕ, ◌+◌, ◌-◌, ◌*◌, ◌/◌, ◌%◌, ◌^◌, ltb, List, [], ◌∷◌, Option, none, some, get_elem?, replicate,
  if◌then◌else◌,
}
use cppcourse.Base.Checked.{◌>>=◌, store}
use cppcourse.Base.Int.{ℤ, pos, negsuc}

-- `std::atomic<long> v`, and the object of two cells at its address.
pub record Counters : Type 0 where
  pub address : ℕ
  pub c : List ℕ

abbrev pub cell_size : ℕ
cell_size = 8

-- `counters_create()`; `new` chooses the address.
unfoldable pub counters_create : ℕ → Counters
counters_create a = record { address = a; c = replicate 2 0 }

-- `&c_[idx]`
abbrev pub cell_address : Counters → ℕ → ℕ
cell_address s idx = s.address + idx * cell_size

unfoldable pub inc : ℕ → Counters → Option Counters
inc idx s =
    get_elem? s.c idx >>= λ v. store s.c idx ((v + 1) % 2 ^ 64) >>= λ c. some (record s { c = c })

-- A word as a `long`.
abbrev pub to_long : ℕ → ℤ
to_long v = if ltb v (2 ^ 63) then pos v else negsuc (2 ^ 64 - 1 - v)

unfoldable pub get : ℕ → Counters → Option ℤ
get idx s = get_elem? s.c idx >>= λ v. some (to_long v)

unfoldable pub gap : Counters → ℕ
gap s = cell_address s 1 - cell_address s 0

unfoldable pub counters_inc : ℕ → Counters → Option Counters
counters_inc i s = inc i s

unfoldable pub counters_get : ℕ → Counters → Option ℤ
counters_get i s = get i s

unfoldable pub counters_gap : Counters → ℕ
counters_gap s = gap s
