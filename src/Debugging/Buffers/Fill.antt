-- ===== src/Debugging/Buffers/Fill.antt =====
-- Where the upper case copy and the table of squares leave their blocks, and what is left of the
-- maximum.
use cppcourse.Base.{
  ℕ, zero, suc, ◌+◌, ◌*◌, ◌≤◌, ◌<◌, ◌≡◌, refl, ◌∙◌, ap, arith, List, some, none, length, inl, inr,
  get_or, set, ◌⊎◌,
}
use cppcourse.Base.{sym, ◌≢◌}
use native.Mathlib.Nat.{mul-le-mul}
use cppcourse.Base.{length-set, get_or-set_self, get_or-set_ne, ℕ_discrete}
use cppcourse.Base.Checked.{store_lem}
use cppcourse.Base.Int.{ℤ, pos, int}
use cppcourse.Debugging.Buffers.{fill_loop, fill_squares}

-- Entry `j` of an array of numbers.
abbrev pub entry : List ℤ → ℕ → ℤ
entry xs j = get_or xs j (pos 0)

-- The sum of `count` squares from that of `first` on.
abbrev pub sum_squares : ℕ → ℕ → ℕ
sum_squares zero first = 0
sum_squares (suc count) first = first * first + sum_squares count (first + 1)

-- The entries `lo` to `hi - 1` are squares, and the others are as they were.
pub record Squares (lo hi : ℕ) (before after : List ℤ) : Type 0 where
  pub same_length : length after ≡ length before
  pub inside : (j : ℕ) → lo ≤ j → j < hi → entry after j ≡ pos (j * j)
  pub outside : (j : ℕ) → (j < lo) ⊎ (hi ≤ j) → entry after j ≡ entry before j

square_int : (i : ℕ) → i ≤ 46340 → int (pos (i * i)) ≡ some (pos (i * i))
square_int i h = let bound : i * i ≤ 46340 * 46340 = mul-le-mul h h in ground (arith, bound)

apart : (i j hi : ℕ) → i < hi → (j < i) ⊎ (hi ≤ j) → i ≢ j
apart i j hi h (inl low) e = omega arith
apart i j hi h (inr high) e = omega arith

fill_loop-Squares :
    (left i hi sum : ℕ) (out : List ℤ)
    → i + left ≡ hi
    → hi ≤ length out
    → hi ≤ 46341
    → (after : List ℤ) × (fill_loop left i out sum ≡ some (after, sum + sum_squares left i))
      × Squares i hi out after
unfolding fill_loop
fill_loop-Squares zero i hi sum out e h small = (
  out,
  ap (λ (t : ℕ). some (out, t)) (omega arith),
  record { same_length = refl; inside = λ j a b. absurd (omega arith); outside = λ j far. refl },
)
fill_loop-Squares (suc left) i hi sum out e h small =
    let out' = set out i (pos (i * i)) in
    let size = length-set out i (pos (i * i)) in
    let (after, returns, done) =
      fill_loop-Squares left (i + 1) hi (sum + i * i) out' (omega arith) (omega arith) small in
    (
      after,
      rw (square_int i (omega arith), store_lem out i (pos (i * i)) (omega arith))
          (returns ∙ ap (λ (t : ℕ). some (after, t)) (omega arith)),
      record {
        same_length = done.same_length ∙ size;
        inside = λ j a b. elim (ℕ_discrete i j) [
          | yes same ↦
              done.outside j (inl (omega arith))
              ∙ ap (entry out') (sym same)
              ∙ get_or-set_self out i (pos (i * i)) (pos 0) (omega arith)
              ∙ ap (λ (t : ℕ). pos (t * t)) same
          | no ne ↦ done.inside j (omega arith) b
        ];
        outside = λ j far.
            done.outside j (elim far [ inl low ↦ inl (omega arith) | inr high ↦ inr high ])
            ∙ get_or-set_ne out i j (pos (i * i)) (pos 0) (apart i j hi (omega arith) far);
      },
    )

fill_loop-overrun :
    (left i sum : ℕ) (out : List ℤ) → i + left ≡ length out → fill_loop (suc left) i out sum ≡ none
unfolding fill_loop
fill_loop-overrun zero i sum out e = ground arith
fill_loop-overrun (suc left) i sum out e =
    let rest =
      fill_loop-overrun left (i + 1) (sum + i * i) (set out i (pos (i * i)))
        (omega (arith, e, length-set out i (pos (i * i)))) in
    ground (arith, rest)

-- With room for `n + 1` elements and `n` at most 46340, `fill_squares` writes the squares of 0 to
-- `n`, one more than it is asked for, leaves the rest alone and returns the sum of all `n + 1`.
pub fill_squares_lem :
    (n : ℕ) (out : List ℤ)
    → n < length out
    → n ≤ 46340
    → (after : List ℤ) × (fill_squares out (pos n) ≡ some (after, sum_squares (suc n) 0))
      × Squares 0 (suc n) out after
unfolding fill_squares
fill_squares_lem n out h small =
    let (after, returns, done) =
      fill_loop-Squares (suc n) 0 (suc n) 0 out (omega arith) (omega arith) (omega arith) in
    (after, returns ∙ ap (λ (t : ℕ). some (after, t)) (omega arith), done)

-- On an array of exactly `n` elements, `fill_squares` always writes out of range, or overflows
-- before it comes to that.
pub fill_squares-overrun : (out : List ℤ) → fill_squares out (pos (length out)) ≡ none
unfolding fill_squares
fill_squares-overrun out = fill_loop-overrun (length out) 0 0 out (omega arith)
