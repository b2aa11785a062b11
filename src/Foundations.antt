-- ===== src/Foundations.antt =====
-- content/exercises/f1 as it stands before it is solved: 01-overflow-safe, 02-safe-cmp,
-- 03-integer-promotions, 04-type-punning, 05-read-whole-file, 07-safe-strings and
-- 08-function-pointers. An `out` parameter is passed along.
use cppcourse.Base.{ℕ, Bool, false, List, Option, none}
use cppcourse.Base.Int.{ℤ, pos, negsuc, ◌-ℤ◌, ◌*ℤ◌, int}

-- 01-overflow-safe
unfoldable pub add_safe_int : ℤ → ℤ → ℤ → ℤ × Bool
add_safe_int a b out = (out, false)

unfoldable pub mul_safe_int : ℤ → ℤ → ℤ → ℤ × Bool
mul_safe_int a b out = (out, false)

unfoldable pub add_safe_size : ℕ → ℕ → ℕ → ℕ × Bool
add_safe_size a b out = (out, false)

-- 02-safe-cmp
unfoldable pub safe_less_si : ℤ → ℕ → Bool
safe_less_si a b = false

unfoldable pub safe_less_iu : ℤ → ℕ → Bool
safe_less_iu a b = false

-- 03-integer-promotions
unfoldable pub uint8_sum_overflows : ℕ → ℕ → ℤ
uint8_sum_overflows a b = negsuc 0

unfoldable pub bitwise_not_u8 : ℕ → ℕ
bitwise_not_u8 x = 0

unfoldable pub signed_less_than_unsigned : ℤ
signed_less_than_unsigned = negsuc 0

unfoldable pub safe_lt : ℤ → ℕ → ℤ
safe_lt a b = pos 0

-- 04-type-punning, over any type of the values of `float`; `bits_to_float` returns 0.0f.
unfoldable pub float_bits_union {ℓ} : {Float : Type ℓ} → Float → ℕ
float_bits_union f = 0

unfoldable pub float_bits_memcpy {ℓ} : {Float : Type ℓ} → Float → ℕ
float_bits_memcpy f = 0

unfoldable pub float_bits_cast {ℓ} : {Float : Type ℓ} → Float → ℕ
float_bits_cast f = 0

unfoldable pub bits_to_float {ℓ} : {Float : Type ℓ} (zero_float : Float) → ℕ → Float
bits_to_float zero_float bits = zero_float

-- 05-read-whole-file; the result is NULL and `*out_len` is left alone.
unfoldable pub read_whole_file : List ℕ → ℕ → Option (List ℕ) × ℕ
read_whole_file path out_len = (none, out_len)

-- 07-safe-strings
unfoldable pub safe_strcpy : List ℕ → ℕ → List ℕ → List ℕ × ℤ
safe_strcpy dst dst_size src = (dst, pos 0)

unfoldable pub safe_strcat : List ℕ → ℕ → List ℕ → List ℕ × ℤ
safe_strcat dst dst_size src = (dst, pos 0)

unfoldable pub parse_int : List ℕ → ℤ → ℤ × ℤ
parse_int s out = (out, negsuc 0)

-- The result is NULL.
unfoldable pub safe_strdup : Option (List ℕ) → Option (List ℕ)
safe_strdup s = none

-- 08-function-pointers; `none` is the overflow of an `int`.
unfoldable pub cmp_int_asc : ℤ → ℤ → ℤ
cmp_int_asc a b = pos 0

unfoldable pub cmp_int_desc : ℤ → ℤ → ℤ
cmp_int_desc a b = pos 0

unfoldable pub sort_ints : List ℤ → (ℤ → ℤ → ℤ) → List ℤ
sort_ints arr cmp = arr

unfoldable pub op_double : ℤ → Option ℤ
op_double x = int (x *ℤ pos 2)

unfoldable pub op_square : ℤ → Option ℤ
op_square x = int (x *ℤ x)

unfoldable pub op_negate : ℤ → Option ℤ
op_negate x = int (pos 0 -ℤ x)

unfoldable pub op_identity : ℤ → ℤ
op_identity x = x

unfoldable pub dispatch : ℤ → ℤ → ℤ
dispatch op arg = pos 0
