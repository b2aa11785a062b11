-- ===== src/Debugging/Sums.antt =====
-- content/exercises/f4/03-overflow-safe/starter.c. An array is the list of its `n` elements.
use cppcourse.Base.{dec_lt}
use cppcourse.Base.{ap, sym, ltb→lt}
use cppcourse.Base.Bits.{every_below, every_below_lem}
use cppcourse.Base.{
  ℕ, ◌+◌, ◌-◌, ◌%◌, ◌^◌, ◌≤◌, ◌<◌, ◌≡◌, refl, ◌∙◌, arith, ◌⊎◌, inl, inr, ◌↔◌, ltb, true,
}
use cppcourse.Base.{List, [], ◌∷◌, Option, none, some, if◌then◌else◌, bit_and, lt→ltb}
use cppcourse.Base.Bits.{bit_and-mask, two_pow_pos}
use cppcourse.Base.Checked.{◌>>=◌}
use cppcourse.Base.Int.{ℤ, pos, sub_ℕ, pos_part, neg_part, ◌+ℤ◌, ◌≤ℤ◌, ltb_ℤ, in_int, int, +ℤ_parts}

-- The loop of `array_sum`, with the accumulator of type `int32_t`.
unfoldable pub sum_loop : List ℤ → ℤ → Option ℤ
sum_loop [] s = some s
sum_loop (x ∷ a) s = do s' ← int (s +ℤ x); sum_loop a s'

unfoldable pub array_sum : List ℤ → Option ℤ
array_sum a = sum_loop a (pos 0)

unfoldable pub max_loop : List ℤ → ℤ → ℤ
max_loop [] m = m
max_loop (x ∷ a) m = max_loop a (if ltb_ℤ m x then x else m)

unfoldable pub array_max : List ℤ → ℤ
array_max a = max_loop a (pos 0)

-- `(1u << k) - 1u`; a shift by 32 or more is undefined.
unfoldable pub low_bits_mask : ℕ → Option ℕ
low_bits_mask k = if ltb k 32 then some ((2 ^ k % 2 ^ 32 + 2 ^ 32 - 1) % 2 ^ 32) else none

-- The exact sum: what the elements add up to on either side of 0.
abbrev pub gain : List ℤ → ℕ
gain [] = 0
gain (x ∷ a) = pos_part x + gain a

abbrev pub loss : List ℤ → ℕ
loss [] = 0
loss (x ∷ a) = neg_part x + loss a

abbrev pub exact_sum : ℤ → List ℤ → ℤ
exact_sum s a = sub_ℕ (pos_part s + gain a) (neg_part s + loss a)

-- Every partial sum after `s` is an `int`.
abbrev pub PartialSumsFit : ℤ → List ℤ → Type 0
PartialSumsFit s [] = Unit {0}
PartialSumsFit s (x ∷ a) = (in_int (s +ℤ x) ≡ true) × PartialSumsFit (s +ℤ x) a

sub_ℕ_cong : (a b c d : ℕ) → a + d ≡ c + b → sub_ℕ a b ≡ sub_ℕ c d
sub_ℕ_cong a b c d h = ground arith

exact_sum_nil : (s : ℤ) → exact_sum s [] ≡ s
exact_sum_nil s = ground arith

exact_sum_cons : (s x : ℤ) (a : List ℤ) → exact_sum s (x ∷ a) ≡ exact_sum (s +ℤ x) a
exact_sum_cons s x a = sub_ℕ_cong _ _ _ _ (omega (arith, +ℤ_parts s x))

sum_loop_complete : (a : List ℤ) (s : ℤ) → PartialSumsFit s a → sum_loop a s ≡ some (exact_sum s a)
unfolding sum_loop
sum_loop_complete [] s h = ap some (sym (exact_sum_nil s))
sum_loop_complete (x ∷ a) s (h, hs) = rw (h, exact_sum_cons s x a) (sum_loop_complete a (s +ℤ x) hs)

int_bind :
    (v : ℤ) (f : ℤ → Option ℤ) (r : ℤ) → (int v >>= f) ≡ some r → (in_int v ≡ true) × (f v ≡ some r)
int_bind v f r h = ground arith

sum_loop_sound :
    (a : List ℤ) (s r : ℤ) → sum_loop a s ≡ some r → PartialSumsFit s a × (r ≡ exact_sum s a)
unfolding sum_loop
sum_loop_sound [] s r h = (tt, ground arith)
sum_loop_sound (x ∷ a) s r h =
    let (e, h') = int_bind (s +ℤ x) (sum_loop a) r h in
    let (hs, eq) = sum_loop_sound a (s +ℤ x) r h' in ((e, hs), eq ∙ sym (exact_sum_cons s x a))

-- `array_sum` returns a result exactly when every partial sum fits `int32_t`, and the result is
-- then the exact sum of the elements; on any other array an addition overflows.
pub array_sum_lem :
    (a : List ℤ) (r : ℤ)
    → (array_sum a ≡ some r) ↔ (PartialSumsFit (pos 0) a × (r ≡ exact_sum (pos 0) a))
unfolding array_sum
array_sum_lem a r =
    (sum_loop_sound a (pos 0) r, λ h. sum_loop_complete a (pos 0) h.0 ∙ ap some (sym h.1))

-- Every element of an array is at most `m`.
abbrev pub Bounded : ℤ → List ℤ → Type 0
Bounded m [] = Unit {0}
Bounded m (x ∷ a) = (x ≤ℤ m) × Bounded m a

-- `m` stands in the array.
abbrev pub Occurs : ℤ → List ℤ → Type 0
Occurs m [] = ⊥
Occurs m (x ∷ a) = (m ≡ x) ⊎ Occurs m a

≤ℤ-trans : (a b c : ℤ) → a ≤ℤ b → b ≤ℤ c → a ≤ℤ c
≤ℤ-trans a b c h h' = omega arith

larger : ℤ → ℤ → ℤ
larger m x = if ltb_ℤ m x then x else m

larger_lem :
    (m x : ℤ) → (m ≤ℤ larger m x) × (x ≤ℤ larger m x) × ((larger m x ≡ m) ⊎ (larger m x ≡ x))
unfolding larger
larger_lem m x = ground arith

max_loop_lem :
    (a : List ℤ) (m : ℤ)
    → (m ≤ℤ max_loop a m)
      × Bounded (max_loop a m) a
      × ((max_loop a m ≡ m) ⊎ Occurs (max_loop a m) a)
unfolding max_loop larger
max_loop_lem [] m = (omega arith, tt, inl refl)
max_loop_lem (x ∷ a) m =
    let (hm, hx, from) = larger_lem m x in
    let (h, hs, found) = max_loop_lem a (larger m x) in
    (
      ≤ℤ-trans m (larger m x) _ hm h,
      (≤ℤ-trans x (larger m x) _ hx h, hs),
      elim found [
        | inl e ↦ elim from [ inl e' ↦ inl (e ∙ e') | inr e' ↦ inr (inl (e ∙ e')) ]
        | inr o ↦ inr (inr o)
      ],
    )

-- `array_max` of any array is at least 0 and at least every element, and it is 0 or an element: on
-- an array of negative elements it is therefore 0 and not their largest.
pub array_max_lem :
    (a : List ℤ)
    → (pos 0 ≤ℤ array_max a)
      × Bounded (array_max a) a
      × ((array_max a ≡ pos 0) ⊎ Occurs (array_max a) a)
unfolding array_max
array_max_lem a = max_loop_lem a (pos 0)

mask_value : (k : ℕ) → k < 32 → low_bits_mask k ≡ some (2 ^ k - 1)
unfolding low_bits_mask every_below
mask_value k h =
    let small : 2 ^ k < 2 ^ 32 =
      ltb→lt _ _ (every_below_lem (λ j. ltb (2 ^ j) (2 ^ 32)) 32 k h refl) in
    rw (lt→ltb k 32 h) (ap some (omega (arith, two_pow_pos k)))

no_mask : (k : ℕ) → 32 ≤ k → low_bits_mask k ≡ none
unfolding low_bits_mask
no_mask k h = ground arith

-- Either `k` is below 32 and the value of `low_bits_mask` selects the remainder of any number by
-- `2 ^ k`, or `k` is larger and the shift is undefined.
pub low_bits_mask_lem :
    (k x : ℕ)
    → ((k < 32) × ((m : ℕ) × (low_bits_mask k ≡ some m) × (bit_and x m ≡ x % 2 ^ k)))
      ⊎ ((32 ≤ k) × (low_bits_mask k ≡ none))
low_bits_mask_lem k x = elim (dec_lt k 32) [
  | yes h ↦ inl (h, (2 ^ k - 1, mask_value k h, bit_and-mask k x))
  | no h ↦ inr (omega arith, no_mask k (omega arith))
]
