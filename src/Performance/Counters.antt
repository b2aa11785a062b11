-- ===== src/Performance/Counters.antt =====
-- content/exercises/c6/03-false-sharing-pad/starter.cpp: an array of counters. `none` is an index out of range,
-- an overflow, or an array of negative length, for which `new` throws.
pub mod Totals
use cppcourse.Base.{
  ℕ, ◌+◌, ◌*◌, ◌-◌, ◌^◌, Bool, ltb, List, [], Option, none, some, get_elem?, length, replicate,
  if◌then◌else◌,
}
use cppcourse.Base.Checked.{◌>>=◌, store}
use cppcourse.Base.Int.{ℤ, pos, negsuc, ◌+ℤ◌, leb_ℤ}

-- `struct Counters`: `value` of each `PaddedCounter` of `a`, the address of `a`, and `n`.
pub record Counters : Type 0 where
  pub address : ℕ
  pub a : List ℤ
  pub n : ℕ

-- The result of an operation on `long`.
abbrev pub long : ℤ → Option ℤ
long v = if leb_ℤ v (pos (2 ^ 63 - 1)) then some v else none

unfoldable pub counters_create : ℕ → ℤ → Option Counters
counters_create address (pos n) =
    some (record { address = address; a = replicate n (pos 0); n = n })
counters_create address (negsuc n) = none

unfoldable pub counters_inc : Counters → ℕ → Option Counters
counters_inc c i = get_elem? c.a i >>= λ v.
    long (v +ℤ pos 1) >>= λ w. store c.a i w >>= λ a. some (record c { a = a })

unfoldable pub counters_get : Counters → ℕ → Option ℤ
counters_get c i = get_elem? c.a i

unfoldable pub counters_elem_size : ℕ
counters_elem_size = 8

-- As it stands.
unfoldable pub counters_on_distinct_lines : Counters → ℕ → ℕ
counters_on_distinct_lines c n = 0
