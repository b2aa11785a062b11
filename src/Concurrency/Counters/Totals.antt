-- ===== src/Concurrency/Counters/Totals.antt =====
-- content/exercises/c1/04-false-sharing/starter.cpp: no increment is lost, and the cells share a line.
use cppcourse.Base.{
  ℕ, ◌+◌, ◌/◌, ◌%◌, ◌^◌, ◌<◌, ◌==◌, ◌≡◌, refl, ◌∙◌, ap, arith, inl, inr, List, [], ◌∷◌, Option,
  some, length, set, get_or, get_elem?-eq-get_or, get_or-set_self, get_or-set_ne, get_or-replicate,
  length-set, if◌then◌else◌, Bool-cases, ==_iff,
}
use cppcourse.Base.Checked.{◌>>=◌, store_lem}
use cppcourse.Base.Counting.{count, AllBelow}
use cppcourse.Concurrency.Counters.{
  Counters, counters_create, cell_address, inc, to_long, get, gap, counters_inc, counters_get,
  counters_gap,
}

-- The increments in the order in which they happen, whichever thread makes them.
unfoldable pub run : List ℕ → Counters → Option Counters
run [] s = some s
run (i ∷ is) s = counters_inc i s >>= λ s'. run is s'

-- The object with one more in cell `i`.
abbrev bumped : ℕ → Counters → Counters
bumped i s = record s { c = set s.c i ((get_or s.c i 0 + 1) % 2 ^ 64) }

inc-bumped : (i : ℕ) (s : Counters) → i < length s.c → counters_inc i s ≡ some (bumped i s)
unfolding counters_inc inc
inc-bumped i s h =
    rw (get_elem?-eq-get_or s.c i 0 h) (rw (store_lem s.c i ((get_or s.c i 0 + 1) % 2 ^ 64) h) refl)

get_or-bumped :
    (i j : ℕ) (s : Counters)
    → i < length s.c
    → get_or (bumped i s).c j 0 ≡ (if j == i then (get_or s.c j 0 + 1) % 2 ^ 64 else get_or s.c j 0)
get_or-bumped i j s h = elim (Bool-cases (j == i)) [
  | inl e ↦ rw e (rw ((==_iff j i).0 e) (get_or-set_self s.c i ((get_or s.c i 0 + 1) % 2 ^ 64) 0 h))
  | inr e ↦
      rw e
        (get_or-set_ne s.c i j ((get_or s.c i 0 + 1) % 2 ^ 64) 0 (λ q. ground (arith, ==_iff j i)))
]

-- What cell `j` has after the increments.
abbrev Counted : List ℕ → ℕ → Counters → Type 0
Counted is j s =
    (s' : Counters) × (run is s ≡ some s')
    × (length s'.c ≡ length s.c)
    × (get_or s'.c j 0 ≡ (get_or s.c j 0 + count j is) % 2 ^ 64)

run-Counted :
    (is : List ℕ) (j : ℕ) (s : Counters)
    → AllBelow (length s.c) is
    → get_or s.c j 0 < 2 ^ 64
    → Counted is j s
unfolding run count
run-Counted [] j s all small = (s, refl, refl, omega arith)
run-Counted (i ∷ is) j s (h, all) small =
    let same = length-set s.c i ((get_or s.c i 0 + 1) % 2 ^ 64) in
    let (s', ran, long, value) =
      run-Counted is j (bumped i s) (rw same all) (ground (arith, get_or-bumped i j s h)) in
    (s', rw (inc-bumped i s h) ran, long ∙ same, value ∙ ground (arith, get_or-bumped i j s h))

-- Whatever order the increments of the two counters come in, none faults and none is lost: each counter
-- is the number of its increments, as a 64-bit `long`.
pub counters_get-run :
    (a : ℕ) (is : List ℕ) (j : ℕ)
    → AllBelow 2 is
    → j < 2
    → (run is (counters_create a) >>= counters_get j) ≡ some (to_long (count j is % 2 ^ 64))
unfolding counters_get get counters_create
counters_get-run a is j all h =
    let start = get_or-replicate {A = ℕ} 2 j 0 0 h in
    let (s', ran, long, value) = run-Counted is j (counters_create a) all (omega (arith, start)) in
    rw ran (
      rw (get_elem?-eq-get_or s'.c j 0 (omega arith)) (
        ap (λ v. some (to_long v))
          (value ∙ ap (λ v. (v + count j is) % 2 ^ 64) start ∙ omega arith)))

-- The two counters are 8 bytes apart, and at an address that is a multiple of 16, as `new` returns it, they
-- share a cache line of 64 bytes.
pub gap_shares_line :
    (a : ℕ)
    → a % 16 ≡ 0
    → (counters_gap (counters_create a) < 64)
      × (cell_address (counters_create a) 0 / 64 ≡ cell_address (counters_create a) 1 / 64)
unfolding counters_create counters_gap gap
gap_shares_line a h = omega arith
