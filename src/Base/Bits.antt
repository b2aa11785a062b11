-- ===== src/Base/Bits.antt =====
-- Facts about `&` and `|` at variables, from the recursion on binary digits.
use Prim.Native.Nat.{
  ℕ, zero, suc, ◌+◌, ◌*◌, ◌/◌, ◌%◌, ◌≤◌, ◌<◌, min, max, bit_and, bit_or, digits, bitwise,
  bit_and-bitwise, bit_or-bitwise,
}
use Prim.Native.Nat.{◌^◌, ◌-◌}
use native.Mathlib.Nat.{pow-suc, mod-lt, div-add-mod, mul-add-mod_self_left, mod-eq_of_lt}
use mathlib.Core.Path.{◌≡◌, refl, sym, ap, ◌∙◌}
use mathlib.Core.Bool.{Bool, true, ◌&&◌}
use native.Mathlib.Nat.{le_refl}
use native.Mathlib.Omega.{arith}

-- Over a small range, every value is checked by evaluation.
unfoldable pub every_below : (ℕ → Bool) → ℕ → Bool
every_below test zero = true
every_below test (suc bound) = test bound && every_below test bound

pub every_below_lem :
    (test : ℕ → Bool) (bound x : ℕ) → x < bound → every_below test bound ≡ true → test x ≡ true
unfolding every_below
every_below_lem test zero x below h = absurd (omega arith)
every_below_lem test (suc bound) x below h = ground (arith, every_below_lem test bound x)

-- `op` works on the binary digits, each pair of them by `g`.
abbrev pub DigitWise : (ℕ → ℕ → ℕ) → (ℕ → ℕ → ℕ) → Type 0
DigitWise op g = (x y : ℕ) → op x y ≡ op (x / 2) (y / 2) * 2 + g (x % 2) (y % 2)

module _ (rest : ℕ → ℕ) (g : ℕ → ℕ → ℕ) where
  -- The recursion ends within as many rounds as its first argument says.
  one_round_more : (k x y : ℕ) → x ≤ k → digits rest g (suc k) x y ≡ digits rest g k x y
  one_round_more zero zero y le = refl
  one_round_more (suc k) zero y le = refl
  one_round_more zero (suc x) y le = absurd (omega arith)
  one_round_more (suc k) (suc x) y le =
      ap (λ (t : ℕ). t * 2 + g (suc x % 2) (y % 2))
        (one_round_more k (suc x / 2) (y / 2) (omega arith))

  spare_rounds : (spare x y : ℕ) → digits rest g (spare + x) x y ≡ bitwise rest g x y
  spare_rounds zero x y = rw (zero_sum x)
    where
      zero_sum : (n : ℕ) → zero + n ≡ n
      zero_sum n = omega arith
  spare_rounds (suc spare) x y =
      rw (suc_sum spare x) (one_round_more (spare + x) x y (omega arith) ∙ spare_rounds spare x y)
    where
      suc_sum : (m n : ℕ) → suc m + n ≡ suc (m + n)
      suc_sum m n = omega arith

  bitwise-suc :
      (x y : ℕ)
      → bitwise rest g (suc x) y ≡ bitwise rest g (suc x / 2) (y / 2) * 2 + g (suc x % 2) (y % 2)
  bitwise-suc x y =
      let enough : x - suc x / 2 + suc x / 2 ≡ x = omega arith in
      ap (λ (k : ℕ). digits rest g k (suc x / 2) (y / 2) * 2 + g (suc x % 2) (y % 2)) (sym enough)
      ∙ ap (λ (t : ℕ). t * 2 + g (suc x % 2) (y % 2))
          (spare_rounds (x - suc x / 2) (suc x / 2) (y / 2))

pub bit_or_step : DigitWise bit_or max
bit_or_step zero y = simp bit_or-bitwise (omega arith)
bit_or_step (suc x) y = simp bit_or-bitwise (bitwise-suc (λ n. n) max x y)

pub bit_and_step : DigitWise bit_and min
bit_and_step zero y = simp bit_and-bitwise (omega arith)
bit_and_step (suc x) y = simp bit_and-bitwise (bitwise-suc (λ n. 0) min x y)

bit_and-le_fuel : (n a b : ℕ) → a ≤ n → bit_and a b ≤ a
bit_and-le_fuel n zero b h = omega (arith, bit_and_step 0 b, bit_and-bitwise 0 (b / 2))
bit_and-le_fuel zero (suc a) b h = absurd (omega arith)
bit_and-le_fuel (suc n) (suc a) b h =
    omega (arith, bit_and_step (suc a) b, bit_and-le_fuel n (suc a / 2) (b / 2) (omega arith))

-- `a & b` has no bit that `a` lacks, so it is no larger.
pub bit_and-le : (a b : ℕ) → bit_and a b ≤ a
bit_and-le a b = bit_and-le_fuel a a b (le_refl _)

zero-bit_and : (b : ℕ) → bit_and 0 b ≡ 0
zero-bit_and b = bit_and-bitwise 0 b

absorb_fuel : (n a b : ℕ) → a ≤ n → bit_and (bit_and a b) a ≡ bit_and a b
absorb_fuel n zero b h = rw (zero-bit_and b) (zero-bit_and 0)
absorb_fuel zero (suc a) b h = absurd (omega arith)
absorb_fuel (suc n) (suc a) b h =
    let half : bit_and (suc a) b / 2 ≡ bit_and (suc a / 2) (b / 2) =
      omega (arith, bit_and_step (suc a) b) in
    omega (
      arith,
      bit_and_step (bit_and (suc a) b) (suc a),
      bit_and_step (suc a) b,
      ap (λ (t : ℕ). bit_and t (suc a / 2)) half,
      absorb_fuel n (suc a / 2) (b / 2) (omega arith),
    )

-- Masking again with the first operand changes nothing.
pub bit_and_absorb : (a b : ℕ) → bit_and (bit_and a b) a ≡ bit_and a b
bit_and_absorb a b = absorb_fuel a a b (le_refl _)

bit_and-half : (a b : ℕ) → bit_and a b / 2 ≡ bit_and (a / 2) (b / 2)
bit_and-half a b = omega (arith, bit_and_step a b)

assoc_fuel : (n a b c : ℕ) → a ≤ n → bit_and (bit_and a b) c ≡ bit_and a (bit_and b c)
assoc_fuel n zero b c h = rw (zero-bit_and b, zero-bit_and c, zero-bit_and (bit_and b c))
assoc_fuel zero (suc a) b c h = absurd (omega arith)
assoc_fuel (suc n) (suc a) b c h = omega (
  arith,
  bit_and_step (bit_and (suc a) b) c,
  bit_and_step (suc a) (bit_and b c),
  bit_and_step (suc a) b,
  bit_and_step b c,
  ap (λ (t : ℕ). bit_and t (c / 2)) (bit_and-half (suc a) b),
  ap (λ (t : ℕ). bit_and (suc a / 2) t) (bit_and-half b c),
  assoc_fuel n (suc a / 2) (b / 2) (c / 2) (omega arith),
)

pub bit_and_assoc : (a b c : ℕ) → bit_and (bit_and a b) c ≡ bit_and a (bit_and b c)
bit_and_assoc a b c = assoc_fuel a a b c (le_refl _)

-- Every bit of `x` is a bit of `y`.
abbrev pub SubMask : ℕ → ℕ → Type 0
SubMask x y = bit_and x y ≡ x

pub SubMask-trans : (x y z : ℕ) → SubMask x y → SubMask y z → SubMask x z
SubMask-trans x y z p q =
    ap (λ (t : ℕ). bit_and t z) (sym p) ∙ bit_and_assoc x y z ∙ ap (bit_and x) q ∙ p

self_fuel : (n a : ℕ) → a ≤ n → bit_and a a ≡ a
self_fuel n zero h = refl
self_fuel zero (suc a) h = absurd (omega arith)
self_fuel (suc n) (suc a) h =
    omega (arith, bit_and_step (suc a) (suc a), self_fuel n (suc a / 2) (omega arith))

pub bit_and_self : (a : ℕ) → bit_and a a ≡ a
bit_and_self a = self_fuel a a (le_refl _)

bit_or-zero_fuel : (n a : ℕ) → a ≤ n → bit_or a 0 ≡ a
bit_or-zero_fuel n zero h = refl
bit_or-zero_fuel zero (suc a) h = absurd (omega arith)
bit_or-zero_fuel (suc n) (suc a) h =
    omega (arith, bit_or_step (suc a) 0, bit_or-zero_fuel n (suc a / 2) (omega arith))

pub bit_or-zero : (a : ℕ) → bit_or a 0 ≡ a
bit_or-zero a = bit_or-zero_fuel a a (le_refl _)

two_pow_suc : (k : ℕ) → 2 ^ suc k ≡ 2 * 2 ^ k
two_pow_suc k = omega (arith, pow-suc 2 k)

pub two_pow_pos : (k : ℕ) → 0 < 2 ^ k
two_pow_pos zero = omega arith
two_pow_pos (suc k) = omega (arith, two_pow_suc k, two_pow_pos k)

bit_and-none_fuel : (n a : ℕ) → a ≤ n → bit_and a 0 ≡ 0
bit_and-none_fuel n zero h = refl
bit_and-none_fuel zero (suc a) h = absurd (omega arith)
bit_and-none_fuel (suc n) (suc a) h =
    omega (arith, bit_and_step (suc a) 0, bit_and-none_fuel n (suc a / 2) (omega arith))

half-mod : (k a : ℕ) → a % 2 ^ suc k ≡ a / 2 % 2 ^ k * 2 + a % 2
half-mod k a =
    let q = a / 2 / 2 ^ k in
    let r = a / 2 % 2 ^ k * 2 + a % 2 in
    let small : r < 2 ^ suc k = omega (arith, mod-lt (a / 2) (two_pow_pos k), two_pow_suc k) in
    let split : a ≡ 2 ^ suc k * q + r =
      omega (arith, div-add-mod (a / 2) (2 ^ k), ap (λ (t : ℕ). t * q) (two_pow_suc k)) in
    ap (λ (t : ℕ). t % 2 ^ suc k) split ∙ mul-add-mod_self_left (2 ^ suc k) q r ∙ mod-eq_of_lt small

-- A mask of the `k` lowest bits takes the remainder by `2 ^ k`.
pub bit_and-mask : (k a : ℕ) → bit_and a (2 ^ k - 1) ≡ a % 2 ^ k
bit_and-mask zero a = omega (arith, bit_and-none_fuel a a (le_refl _))
bit_and-mask (suc k) a =
    let half : (2 ^ suc k - 1) / 2 ≡ 2 ^ k - 1 = omega (arith, two_pow_suc k, two_pow_pos k) in
    omega (
      arith,
      bit_and_step a (2 ^ suc k - 1),
      ap (bit_and (a / 2)) half,
      bit_and-mask k (a / 2),
      half-mod k a,
      two_pow_suc k,
      two_pow_pos k,
    )
