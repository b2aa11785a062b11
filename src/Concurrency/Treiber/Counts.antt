-- ===== src/Concurrency/Treiber/Counts.antt =====
-- How many nodes of a list have a property, for content/exercises/c1/05-treiber-stack/starter.cpp.
use cppcourse.Base.{
  ℕ, ◌+◌, ◌≤◌, ◌<◌, ◌==◌, ◌≡◌, arith, inl, inr, Bool, true, false, ◌&&◌, not, List, [], ◌∷◌, length,
  if◌then◌else◌, Bool-cases, ==_iff,
}
use cppcourse.Concurrency.Treiber.Chain.{contains}

unfoldable pub count : (ℕ → Bool) → List ℕ → ℕ
count f [] = 0
count f (x ∷ xs) = (if f x then 1 else 0) + count f xs

pub count-le-length : (f : ℕ → Bool) (xs : List ℕ) → count f xs ≤ length xs
unfolding count
count-le-length f [] = omega arith
count-le-length f (x ∷ xs) = ground (arith, count-le-length f xs)

pub count_le :
    (f g : ℕ → Bool) (xs : List ℕ)
    → ((x : ℕ) → (f x && not (g x)) ≡ false)
    → count f xs ≤ count g xs
unfolding count
count_le f g [] h = omega arith
count_le f g (x ∷ xs) h = ground (arith, h x, count_le f g xs h)

pub count_lt :
    (f g : ℕ → Bool) (n : ℕ) (xs : List ℕ)
    → contains n xs ≡ true
    → f n ≡ false
    → g n ≡ true
    → ((x : ℕ) → (f x && not (g x)) ≡ false)
    → count f xs < count g xs
unfolding count
count_lt f g n [] m a b h = cc
count_lt f g n (x ∷ xs) m a b h = elim (Bool-cases (n == x)) [
  | inl e ↦ ground (arith, ==_iff n x, count_le f g xs h)
  | inr e ↦ ground (arith, h x, count_lt f g n xs (ground arith) a b h)
]
