-- ===== src/Debugging/Search/Scan.antt =====
-- What `fib` and `str_find_char` return.
use cppcourse.Base.{
  ℕ, zero, suc, ◌+◌, ◌-◌, ◌≤◌, ◌<◌, ◌^◌, ◌≡◌, ◌≢◌, refl, arith, ◌⊎◌, inl, inr, leb, ◌==◌,
}
use cppcourse.Base.{
  List, Option, none, some, length, get_or, get_elem?-eq-get_or, Bool-cases, if◌then◌else◌, ==_iff,
  dec_lt,
}
use cppcourse.Base.{true, false}
use cppcourse.Base.Int.{to_int_small, ℤ, pos, negsuc, ◌+ℤ◌, int}
use cppcourse.Debugging.Search.{fib_rec, fib, find_loop, str_find_char}

-- The Fibonacci numbers from 0, as the source's comment lists them.
abbrev pub fibonacci : ℕ → ℕ
fibonacci zero = 0
fibonacci (suc zero) = 1
fibonacci (suc (suc n)) = fibonacci (suc n) + fibonacci n

abbrev pub int_max : ℕ
int_max = 2 ^ 31 - 1

-- A number as an `int`, if it is one.
abbrev pub as_int : ℕ → Option ℤ
as_int n = if leb n int_max then some (pos n) else none

as_int-add : (a b : ℕ) → int (pos a +ℤ pos b) ≡ as_int (a + b)
unfolding ◌+ℤ◌
as_int-add a b = ground arith

fib_rec-suc :
    (n a b : ℕ)
    → fib_rec (suc n) ≡ as_int a
    → fib_rec n ≡ as_int b
    → b ≤ a
    → fib_rec (suc (suc n)) ≡ as_int (a + b)
unfolding fib_rec
fib_rec-suc n a b p q h = elim (Bool-cases (leb a int_max)) [
  | inl fits ↦
      let fits' : leb b int_max ≡ true = ground arith in rw (p, q, fits, fits') (as_int-add a b)
  | inr big ↦ let big' : leb (a + b) int_max ≡ false = ground arith in rw (p, big, big')
]

fibonacci-le : (n : ℕ) → fibonacci n ≤ fibonacci (suc n)
fibonacci-le zero = omega arith
fibonacci-le (suc n) = omega arith

fib_rec_lem : (n : ℕ) → fib_rec n ≡ as_int (fibonacci (suc n))
fib_rec_lem zero = unfold fib_rec in refl
fib_rec_lem (suc zero) = unfold fib_rec in refl
fib_rec_lem (suc (suc n)) =
    fib_rec-suc n (fibonacci (suc (suc n))) (fibonacci (suc n)) (fib_rec_lem (suc n))
      (fib_rec_lem n) (fibonacci-le (suc n))

-- `fib(n)` is -1 for a negative `n`. For the others it is the Fibonacci number of `n + 1` where that
-- is an `int`, and overflows where it is not.
pub fib_lem :
    (n : ℕ) → (fib (pos n) ≡ as_int (fibonacci (suc n))) × (fib (negsuc n) ≡ some (negsuc 0))
unfolding fib
fib_lem n = (fib_rec_lem n, refl)

-- `r` answers the search for `c` in `s[i..len)`: the first index at which it is, or -1.
abbrev pub Finds : List ℕ → ℕ → ℕ → ℕ → ℤ → Type 0
Finds s c i len r =
    ((r ≡ negsuc 0) × ((j : ℕ) → i ≤ j → j < len → get_or s j 0 ≢ c))
    ⊎ ((m : ℕ) × (i ≤ m)
        × (m < len)
        × (get_or s m 0 ≡ c)
        × (r ≡ pos m)
        × ((j : ℕ) → i ≤ j → j < m → get_or s j 0 ≢ c))

Finds-suc :
    (s : List ℕ) (c i len : ℕ) (r : ℤ)
    → get_or s i 0 ≢ c
    → Finds s c (i + 1) len r
    → Finds s c i len r
Finds-suc s c i len r ne (inl (e, absent)) = inl (
  e,
  λ j p q. elim (dec_lt i j) [
    | yes h ↦ absent j (omega arith) q
    | no h ↦ let same : j ≡ i = omega arith in rw same ne
  ],
)
Finds-suc s c i len r ne (inr (m, p, q, e, f, before)) = inr (
  m,
  omega arith,
  q,
  e,
  f,
  λ j a b. elim (dec_lt i j) [
    | yes h ↦ before j (omega arith) b
    | no h ↦ let same : j ≡ i = omega arith in rw same ne
  ],
)

module _ (s : List ℕ) (c : ℕ) where
  find_loop-Finds :
      (left i len : ℕ)
      → i + left ≡ len
      → len ≤ length s
      → len ≤ 2 ^ 31
      → (r : ℤ) × (find_loop left i s c ≡ some r) × Finds s c i len r
  unfolding find_loop
  find_loop-Finds zero i len e h small = (negsuc 0, refl, inl (refl, λ j p q. absurd (omega arith)))
  find_loop-Finds (suc left) i len e h small =
      let inside = get_elem?-eq-get_or s i 0 (omega arith) in
      elim (Bool-cases (get_or s i 0 == c)) [
        | inl hit ↦ (
          pos i,
          rw (inside, hit, to_int_small i (omega arith)),
          inr (
            i,
            omega arith,
            omega arith,
            (==_iff _ c).0 hit,
            refl,
            λ j p q. absurd (omega arith),
          ),
        )
        | inr miss ↦
            let (r, returns, finds) = find_loop-Finds left (i + 1) len (omega arith) h small in
            (r, rw (inside, miss) returns, Finds-suc s c i len r (ground arith) finds)
      ]

  -- In a string that holds `len` bytes, at most 2^31, the result is the first index from 1 on at which the byte
  -- is, or -1 if there is none: index 0 is never looked at.
  pub str_find_char_lem :
      (len : ℕ)
      → 0 < len
      → len ≤ length s
      → len ≤ 2 ^ 31
      → (r : ℤ) × (str_find_char s len c ≡ some r) × Finds s c 1 len r
  unfolding str_find_char
  str_find_char_lem len pos_len h small = find_loop-Finds (len - 1) 1 len (omega arith) h small
