-- ===== src/Debugging/Buffers/Copies.antt =====
-- The upper case copy, and the pointer to the maximum.
use mathlib.Core.Path.{subst}
use cppcourse.Base.{
  ℕ, zero, suc, ◌+◌, ◌≤◌, ◌<◌, ◌≡◌, refl, ◌∙◌, ap, arith, List, some, none, length, true, inl, inr,
  Bool-cases, Bool, replicate, get_or, set, take, sym,
}
use cppcourse.Base.{
  length-set, length-replicate, length-take, get_elem?-eq-get_or, get_or-set_self, get_or-set_ne,
  ℕ_discrete, dec_lt, le→leb, if◌then◌else◌,
}
use cppcourse.Base.Checked.{store_lem}
use cppcourse.Base.Int.{ℤ, pos, ltb_ℤ, ◌≤ℤ◌}
use cppcourse.Base.Text.{c_str, length-c_str}
use cppcourse.Debugging.Buffers.{toupper, upper_loop, str_upper, freed, max_idx_loop, find_max_ptr}
use cppcourse.Debugging.Buffers.Fill.{entry}

-- The bytes from `lo` to `hi - 1` are the upper case of those of the text.
pub record Upper (lo hi : ℕ) (s before after : List ℕ) : Type 0 where
  pub same_length : length after ≡ length before
  pub inside : (j : ℕ) → lo ≤ j → j < hi → get_or after j 0 ≡ toupper (get_or s j 0)
  pub outside : (j : ℕ) → j < lo → get_or after j 0 ≡ get_or before j 0

upper_loop-Upper :
    (left i hi : ℕ) (s buf : List ℕ)
    → i + left ≡ hi
    → hi ≤ length s
    → hi ≤ length buf
    → (after : List ℕ) × (upper_loop left i s buf ≡ some after) × Upper i hi s buf after
unfolding upper_loop
upper_loop-Upper zero i hi s buf e h room = (
  buf,
  refl,
  record { same_length = refl; inside = λ j a b. absurd (omega arith); outside = λ j low. refl },
)
upper_loop-Upper (suc left) i hi s buf e h room =
    let c = toupper (get_or s i 0) in
    let size = length-set buf i c in
    let (after, returns, done) =
      upper_loop-Upper left (i + 1) hi s (set buf i c) (omega arith) h (omega arith) in
    (
      after,
      rw (get_elem?-eq-get_or s i 0 (omega arith), store_lem buf i c (omega arith)) returns,
      record {
        same_length = done.same_length ∙ size;
        inside = λ j a b. elim (ℕ_discrete i j) [
          | yes same ↦
              done.outside j (omega arith)
              ∙ ap (λ (t : ℕ). get_or (set buf i c) t 0) (sym same)
              ∙ get_or-set_self buf i c 0 (omega arith)
              ∙ ap (λ (t : ℕ). toupper (get_or s t 0)) same
          | no ne ↦ done.inside j (omega arith) b
        ];
        outside =
            λ j low. done.outside j (omega arith) ∙ get_or-set_ne buf i j c 0 (λ e. omega arith);
      },
    )

overrun :
    (memory : Bool) (s buf : List ℕ)
    → upper_loop (length (c_str s)) 0 s (replicate (length (c_str s)) 0) ≡ some buf
    → length buf ≡ length (c_str s)
    → str_upper memory s ≡ none
unfolding str_upper
overrun memory s buf returns whole = ground (arith, returns, whole)

-- Whatever the text, the loop of `str_upper` fills the block with its upper case, and `str_upper`
-- then writes the terminator one byte behind the block, or through NULL if there is no block.
pub str_upper_lem :
    (memory : Bool) (s : List ℕ)
    → let n = length (c_str s) in
      (str_upper memory s ≡ none)
      × ((buf : List ℕ) × (upper_loop n 0 s (replicate n 0) ≡ some buf)
          × (length buf ≡ n)
          × Upper 0 n s (replicate n 0) buf)
unfolding str_upper
str_upper_lem memory s =
    let n = length (c_str s) in
    let size = length-replicate {A = ℕ} n 0 in
    let (buf, returns, done) =
      upper_loop-Upper n 0 n s (replicate n 0) (omega arith) (length-c_str s) (omega arith) in
    let whole = done.same_length ∙ size in
    (overrun memory s buf returns whole, (buf, returns, whole, done))

-- `m` is the first place below `t` of the largest element there.
pub record FirstMax (xs : List ℤ) (t m : ℕ) : Type 0 where
  pub inside : m < t
  pub largest : (j : ℕ) → j < t → entry xs j ≤ℤ entry xs m
  pub first : (j : ℕ) → j < m → ltb_ℤ (entry xs j) (entry xs m) ≡ true

FirstMax-suc :
    (xs : List ℤ) (i m : ℕ)
    → FirstMax xs i m
    → FirstMax xs (i + 1) (if ltb_ℤ (entry xs m) (entry xs i) then i else m)
FirstMax-suc xs i m best = elim (Bool-cases (ltb_ℤ (entry xs m) (entry xs i))) [
  | inl more ↦ rw more (record {
    inside = omega arith;
    largest = λ j h. elim (dec_lt j i) [
      | yes low ↦ ground (arith, best.largest j low)
      | no top ↦ let same : j ≡ i = omega arith in rw same (omega arith)
    ];
    first = λ j h. ground (arith, best.largest j h);
  })
  | inr less ↦ rw less (record {
    inside = omega (arith, best.inside);
    largest = λ j h. elim (dec_lt j i) [
      | yes low ↦ best.largest j low
      | no top ↦ let same : j ≡ i = omega arith in rw same (ground arith)
    ];
    first = best.first;
  })
]

max_idx_loop-FirstMax :
    (left i t m : ℕ) (xs : List ℤ)
    → i + left ≡ t
    → t ≤ length xs
    → FirstMax xs i m
    → (r : ℕ) × (max_idx_loop left i xs m ≡ some r) × FirstMax xs t r
unfolding max_idx_loop
max_idx_loop-FirstMax zero i t m xs e h best =
    (m, refl, subst (λ k. FirstMax xs k m) (omega arith) best)
max_idx_loop-FirstMax (suc left) i t m xs e h best =
    let m' = if ltb_ℤ (entry xs m) (entry xs i) then i else m in
    let (r, returns, done) =
      max_idx_loop-FirstMax left (i + 1) t m' xs (omega arith) h (FirstMax-suc xs i m best) in
    (
      r,
      rw
          (
            get_elem?-eq-get_or xs i (pos 0) (omega arith),
            get_elem?-eq-get_or xs m (pos 0) (omega (arith, best.inside)),
          )
          returns,
      done,
    )

-- For the first `n + 1` elements of an array, with the copy allocated, the result of `find_max_ptr`
-- points to the first largest of them, but into the copy, which is freed by then.
pub find_max_ptr_lem :
    (n : ℕ) (arr : List ℤ)
    → n < length arr
    → (m : ℕ) × (find_max_ptr true arr (pos (suc n)) ≡ some (freed m))
      × FirstMax (take (suc n) arr) (suc n) m
unfolding find_max_ptr
find_max_ptr_lem n arr h =
    let size = length-take (suc n) arr in
    let start : FirstMax (take (suc n) arr) 1 0 = record {
      inside = omega arith;
      largest = λ j low. let same : j ≡ 0 = omega arith in rw same (omega arith);
      first = λ j low. absurd (omega arith);
    } in
    let (m, returns, best) =
      max_idx_loop-FirstMax n 1 (suc n) 0 (take (suc n) arr) (omega arith) (omega arith) start in
    (m, rw (le→leb (suc n) (length arr) (omega arith), returns), best)
