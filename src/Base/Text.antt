-- ===== src/Base/Text.antt =====
-- C strings as lists of bytes, and the decimal printing of integers.
use Prim.Native.Nat.{◌≤◌, ◌<◌, ◌^◌}
use mathlib.Core.Path.{◌≡◌}
use mathlib.Core.Bool.{true}
use mathlib.Core.Logic.{inl, inr}
use native.Mathlib.Nat.{pow-suc}
use native.Mathlib.Omega.{arith}
use cppcourse.Base.Lists.{length}
use cppcourse.Base.Compare.{==_iff, Bool-cases}
use cppcourse.Base.Int.{in_int}
use Prim.Native.Nat.{ℕ, zero, suc, ◌+◌, ◌/◌, ◌%◌}
use Prim.Native.Char.{code}
use Prim.Native.String.{String}
use mathlib.Core.Bool.{Bool, true, false, ◌&&◌}
use mathlib.Core.List.{List, [], ◌∷◌}
use cppcourse.Base.Compare.{◌==◌, if◌then◌else◌}
use cppcourse.Base.Int.{ℤ, pos, negsuc}

-- The bytes of an ASCII literal.
abbrev pub codes : String → List ℕ
codes String.[] = []
codes (String.◌∷◌ c s) = code c ∷ codes s

-- The string that starts at a buffer: its bytes up to the first NUL.
unfoldable pub c_str : List ℕ → List ℕ
c_str [] = []
c_str (c ∷ s) = if c == 0 then [] else c ∷ c_str s

-- `strncmp(s, prefix, strlen(prefix)) == 0`
unfoldable pub starts_with : List ℕ → List ℕ → Bool
starts_with s [] = true
starts_with [] (p ∷ ps) = false
starts_with (c ∷ s) (p ∷ ps) = c == p && starts_with s ps

-- The decimal digits of `n`, most significant first, in front of `acc`.
unfoldable pub digits : ℕ → ℕ → List ℕ → List ℕ
digits zero n acc = acc
digits (suc fuel) n acc =
    let d = b'0' + n % 10 in
    let rest = digits fuel (n / 10) (d ∷ acc) in if n / 10 == 0 then d ∷ acc else rest

-- `n` has fewer than `n + 1` digits to come.
unfoldable pub decimal : ℕ → List ℕ
unfolding digits
decimal n = digits (suc n) n []

-- `%d` and `%ld`.
unfoldable pub print_ℤ : ℤ → List ℕ
unfolding decimal
print_ℤ (pos n) = decimal n
print_ℤ (negsuc n) = b'-' ∷ decimal (suc n)

length-digits :
    (fuel n d : ℕ) (acc : List ℕ) → n < 10 ^ suc d → length (digits fuel n acc) ≤ suc d + length acc
unfolding digits
length-digits zero n d acc h = omega arith
length-digits (suc fuel) n zero acc h = rw small (omega arith)
  where
    small : (n / 10 == 0) ≡ true
    small = (==_iff (n / 10) 0).1 (omega arith)
length-digits (suc fuel) n (suc d) acc h = elim (Bool-cases (n / 10 == 0)) [
  | inl e ↦ rw e (omega arith)
  | inr e ↦ rw e (
      omega (
        arith,
        length-digits fuel (n / 10) d ((b'0' + n % 10) ∷ acc) (omega (arith, pow-suc 10 (suc d))),
      ))
]

-- A number below 10 ^ (d + 1) is printed with at most d + 1 digits.
pub length-decimal : (n d : ℕ) → n < 10 ^ suc d → length (decimal n) ≤ suc d
unfolding decimal
length-decimal n d h = omega (arith, length-digits (suc n) n d [] h)

-- An `int` is printed with at most 11 characters.
pub length-print_ℤ : (a : ℤ) → in_int a ≡ true → length (print_ℤ a) ≤ 11
unfolding print_ℤ
length-print_ℤ (pos n) h = omega (arith, length-decimal n 9 (ground arith))
length-print_ℤ (negsuc n) h = omega (arith, length-decimal (suc n) 9 (ground arith))

pub length-c_str : (s : List ℕ) → length (c_str s) ≤ length s
unfolding c_str
length-c_str [] = omega arith
length-c_str (c ∷ s) = ground (arith, length-c_str s)
