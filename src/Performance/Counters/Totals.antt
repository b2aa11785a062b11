-- ===== src/Performance/Counters/Totals.antt =====
-- content/exercises/c6/03-false-sharing-pad/starter.cpp: the increments that each counter counts.
use cppcourse.Base.{
  ℕ, ◌+◌, ◌^◌, ◌<◌, ◌==◌, ◌≡◌, refl, ◌∙◌, ap, arith, inl, inr, List, [], ◌∷◌, Option, some, length,
  set, get_or, get_elem?-eq-get_or, get_or-set_self, get_or-set_ne, get_or-replicate, replicate,
  length-set, length-replicate, if◌then◌else◌, Bool-cases, ==_iff,
}
use cppcourse.Base.Checked.{◌>>=◌, store_lem}
use cppcourse.Base.Int.{pos, ◌+ℤ◌}
use cppcourse.Performance.Counters.{Counters, long, counters_create, counters_inc, counters_get}
use cppcourse.Base.Counting.{count, count-le-length, AllBelow}

unfoldable pub run : List ℕ → Counters → Option Counters
run [] c = some c
run (i ∷ is) c = counters_inc c i >>= λ c'. run is c'

-- The numbers that the counters show.
Shows : Counters → ℕ → (ℕ → ℕ) → Type 0
Shows c n f = (length c.a ≡ n) × ((j : ℕ) → j < n → get_or c.a j (pos 0) ≡ pos (f j))

pos-add-one : (k : ℕ) → (pos k +ℤ pos 1) ≡ pos (k + 1)
unfolding ◌+ℤ◌
pos-add-one k = ground arith

long-pos : (k : ℕ) → k < 2 ^ 63 → long (pos k) ≡ some (pos k)
long-pos k h = ground arith

inc-Shows :
    (c : Counters) (n : ℕ) (f : ℕ → ℕ) (i : ℕ)
    → Shows c n f
    → i < n
    → f i + 1 < 2 ^ 63
    → (c' : Counters) × (counters_inc c i ≡ some c')
      × Shows c' n (λ j. f j + (if j == i then 1 else 0))
unfolding counters_inc Shows
inc-Shows c n f i (len, shown) h small =
    let inside : i < length c.a = rw len h in
    (
      record c { a = set c.a i (pos (f i + 1)) },
      rw (get_elem?-eq-get_or c.a i (pos 0) inside) (
          rw (shown i h) (
            rw (pos-add-one (f i))
              (rw (long-pos (f i + 1) small) (rw (store_lem c.a i (pos (f i + 1)) inside) refl)))),
      (
        length-set c.a i (pos (f i + 1)) ∙ len,
        λ j hj. elim (Bool-cases (j == i)) [
          | inl e ↦
              rw e (rw ((==_iff j i).0 e) (get_or-set_self c.a i (pos (f i + 1)) (pos 0) inside))
          | inr e ↦ rw e (
              get_or-set_ne c.a i j (pos (f i + 1)) (pos 0) (λ q. ground (arith, ==_iff j i))
              ∙ shown j hj
              ∙ ap pos (omega arith))
        ],
      ),
    )

run-Shows :
    (is : List ℕ) (c : Counters) (n : ℕ) (f : ℕ → ℕ)
    → Shows c n f
    → AllBelow n is
    → ((j : ℕ) → j < n → f j + count j is < 2 ^ 63)
    → (c' : Counters) × (run is c ≡ some c') × Shows c' n (λ j. f j + count j is)
unfolding run count Shows
run-Shows [] c n f (len, shown) all small =
    (c, refl, (len, λ j hj. shown j hj ∙ ap pos (omega arith)))
run-Shows (i ∷ is) c n f shows (h, all) small =
    let (d, first, shows') = inc-Shows c n f i shows h (ground (arith, small i h, ==_iff i i)) in
    let (c', rest, (len, shown)) =
      run-Shows is d n (λ j. f j + (if j == i then 1 else 0)) shows' all
        (λ j hj. omega (arith, small j hj)) in
    (c', rw first rest, (len, λ j hj. shown j hj ∙ ap pos (omega arith)))

-- In an array of n counters fewer than 2^63 increments, in any order, neither fault nor overflow, and each
-- counter is then the number of its own increments.
pub get-run :
    (address n : ℕ) (is : List ℕ) (j : ℕ)
    → AllBelow n is
    → length is < 2 ^ 63
    → j < n
    → (counters_create address (pos n) >>= λ c. run is c >>= λ d. counters_get d j)
      ≡ some (pos (count j is))
unfolding counters_create counters_get Shows
get-run address n is j all few h =
    let (d, ran, (len, shown)) =
      run-Shows is (record { address = address; a = replicate n (pos 0); n = n }) n (λ k. 0)
        (length-replicate n (pos 0), λ k hk. get_or-replicate n k (pos 0) (pos 0) hk) all
        (λ k hk. omega (arith, count-le-length k is)) in
    rw ran
      (get_elem?-eq-get_or d.a j (pos 0) (rw len h) ∙ ap some (shown j h ∙ ap pos (omega arith)))
