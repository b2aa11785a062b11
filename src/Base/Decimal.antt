-- ===== src/Base/Decimal.antt =====
-- The decimal print of a natural number tells which number it is.
use Prim.Native.Nat.{ℕ, zero, suc, ◌+◌, ◌-◌, ◌*◌, ◌/◌, ◌%◌, ◌<◌}
use mathlib.Core.Path.{◌≡◌, sym, ap, ◌∙◌}
use mathlib.Core.Logic.{inl, inr}
use mathlib.Core.List.{List, [], ◌∷◌}
use native.Mathlib.Omega.{arith}
use cppcourse.Base.Compare.{◌==◌, ==_iff, Bool-cases}
use cppcourse.Base.Text.{digits, decimal}
use cppcourse.Base.Strings.{Lacks}

-- The number that the digits stand for, behind those that come to `v`.
value : ℕ → List ℕ → ℕ
value v [] = v
value v (d ∷ ds) = value (v * 10 + (d - b'0')) ds

value-digits : (fuel n : ℕ) (acc : List ℕ) → n < fuel → value 0 (digits fuel n acc) ≡ value n acc
unfolding value digits
value-digits zero n acc h = omega (arith, h)
value-digits (suc fuel) n acc h = elim (Bool-cases (n / 10 == 0)) [
  | inl e ↦
      let small : 0 + (b'0' + n % 10 - b'0') ≡ n = ground (arith, ==_iff (n / 10) 0) in
      rw e (ap (λ v. value v acc) small)
  | inr e ↦
      let whole : n / 10 * 10 + (b'0' + n % 10 - b'0') ≡ n = omega arith in
      rw e (
        value-digits fuel (n / 10) ((b'0' + n % 10) ∷ acc) (ground (arith, ==_iff (n / 10) 0))
        ∙ ap (λ v. value v acc) whole)
]

pub decimal_injective : (m n : ℕ) → decimal m ≡ decimal n → m ≡ n
unfolding decimal value
decimal_injective m n e =
    sym (value-digits (suc m) m [] (omega arith))
    ∙ ap (value 0) e
    ∙ value-digits (suc n) n [] (omega arith)

digits-Lacks : (c fuel n : ℕ) (acc : List ℕ) → b'9' < c → Lacks c acc → Lacks c (digits fuel n acc)
unfolding digits
digits-Lacks c zero n acc h k = k
digits-Lacks c (suc fuel) n acc h k = elim (Bool-cases (n / 10 == 0)) [
  | inl e ↦ rw e (omega arith, k)
  | inr e ↦ rw e (digits-Lacks c fuel (n / 10) ((b'0' + n % 10) ∷ acc) h (omega arith, k))
]

-- What comes behind 9 in the order of characters is in no number.
pub decimal-Lacks : (c n : ℕ) → b'9' < c → Lacks c (decimal n)
unfolding decimal
decimal-Lacks c n h = digits-Lacks c (suc n) n [] h tt
