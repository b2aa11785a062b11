-- ===== src/Debugging/Tests.antt =====
-- Runs of the programs to debug.
pub mod Memory
use cppcourse.Base.{◌≡◌, refl, arith, List, [], ◌∷◌, some}
use cppcourse.Base.Int.{ℤ, pos, negsuc}
use cppcourse.Base.{◌↔◌, true, ltb, ◌||◌}
use cppcourse.Base.Int.{leb_ℤ}
use cppcourse.Base.Bits.{every_below, every_below_lem}
use cppcourse.Debugging.Search.Binary.{elem, IsSorted}
use cppcourse.Debugging.Sums.{max_loop}
use cppcourse.Debugging.Search.{binary_search}
use cppcourse.Debugging.Search.Binary.{Answers, binary_search_lem}
use cppcourse.Debugging.Sums.{array_sum, array_max, PartialSumsFit, exact_sum, array_sum_lem}

abbrev primes : List ℤ
primes = pos 2 ∷ pos 3 ∷ pos 5 ∷ pos 7 ∷ []

primes_table :
    every_below (λ j. every_below (λ i. ltb j i || leb_ℤ (elem primes i) (elem primes j)) 4) 4
    ≡ true
unfolding every_below
primes_table = refl

primes-IsSorted : IsSorted primes 4
primes-IsSorted i j h below =
    let row = every_below_lem _ 4 j below primes_table in
    let entry = every_below_lem _ 4 i (omega arith) row in ground arith

binary_search_example :
    (r : ℤ) × (binary_search primes (pos 4) (pos 5) ≡ some r) × Answers primes (pos 5) 0 4 r
binary_search_example =
    binary_search_lem primes (pos 5) 4 primes-IsSorted (omega arith) (omega arith)

array_sum_example : (array_sum (pos 3 ∷ negsuc 4 ∷ []) ≡ some (negsuc 1)) ↔ (
    PartialSumsFit (pos 0) (pos 3 ∷ negsuc 4 ∷ [])
    × (negsuc 1 ≡ exact_sum (pos 0) (pos 3 ∷ negsuc 4 ∷ [])))
array_sum_example = array_sum_lem (pos 3 ∷ negsuc 4 ∷ []) (negsuc 1)

-- The largest of two negative numbers is reported as 0.
array_max_test : array_max (negsuc 4 ∷ negsuc 1 ∷ []) ≡ pos 0
unfolding array_max max_loop
array_max_test = refl
