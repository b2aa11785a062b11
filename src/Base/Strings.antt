-- ===== src/Base/Strings.antt =====
-- Texts as lists of code points: equality, prefixes and suffixes, and splitting at a separator.
use Prim.Native.Nat.{ℕ, ◌-◌}
use mathlib.Core.Path.{◌≡◌, refl, sym, ap, ap₂, ◌∙◌}
use mathlib.Core.Logic.{◌≢◌, ◌⊎◌, inl, inr}
use mathlib.Core.Bool.{Bool, true, false, ◌&&◌}
use mathlib.Core.List.{List, [], ◌∷◌, ◌++◌}
use native.Mathlib.Omega.{arith}
use cppcourse.Base.Compare.{◌==◌, ==_iff, ==_false, if◌then◌else◌, Bool-cases}
use cppcourse.Base.Lists.{length, take, drop, length-append}
use cppcourse.Base.Text.{starts_with}

abbrev pub same_text : List ℕ → List ℕ → Bool
same_text [] [] = true
same_text [] (y ∷ ys) = false
same_text (x ∷ xs) [] = false
same_text (x ∷ xs) (y ∷ ys) = x == y && same_text xs ys

pub same_text_refl : (s : List ℕ) → same_text s s ≡ true
same_text_refl [] = refl
same_text_refl (x ∷ s) = ground (arith, ==_iff x x, same_text_refl s)

pub same_text_eq : (s t : List ℕ) → same_text s t ≡ true → s ≡ t
same_text_eq [] [] h = refl
same_text_eq [] (y ∷ ys) h = cc
same_text_eq (x ∷ xs) [] h = cc
same_text_eq (x ∷ xs) (y ∷ ys) h =
    let heads : x ≡ y = ground (arith, ==_iff x y) in
    let tails : same_text xs ys ≡ true = ground arith in ap₂ ◌∷◌ heads (same_text_eq xs ys tails)

pub same_text_apart : (s t : List ℕ) → same_text s t ≡ false → s ≢ t
same_text_apart s t e x =
    let agree : false ≡ true = sym e ∙ ap (λ u. same_text u t) x ∙ same_text_refl t in cc

pub same_text_distinct : (s t : List ℕ) → s ≢ t → same_text s t ≡ false
same_text_distinct s t n = elim (Bool-cases (same_text s t)) [
  | inl e ↦ absurd (n (same_text_eq s t e))
  | inr e ↦ e
]

-- `s.endswith(q)`
unfoldable pub ends_with : List ℕ → List ℕ → Bool
ends_with [] q = same_text [] q
ends_with (x ∷ s) q = let rest = ends_with s q in if same_text (x ∷ s) q then true else rest

-- `s.removeprefix(p)`
unfoldable pub remove_prefix : List ℕ → List ℕ → List ℕ
remove_prefix p s = if starts_with s p then drop (length p) s else s

-- `s.removesuffix(q)`
unfoldable pub remove_suffix : List ℕ → List ℕ → List ℕ
remove_suffix q s = if ends_with s q then take (length s - length q) s else s

abbrev push_front : ℕ → List (List ℕ) → List (List ℕ)
push_front x [] = (x ∷ []) ∷ []
push_front x (p ∷ ps) = (x ∷ p) ∷ ps

-- `s.split(c)` for a separator of one character; the result has a part at least.
unfoldable pub split_on : ℕ → List ℕ → List (List ℕ)
split_on c [] = [] ∷ []
split_on c (x ∷ s) = let rest = split_on c s in if x == c then [] ∷ rest else push_front x rest

-- The separator is not in the text.
abbrev pub Lacks : ℕ → List ℕ → Type 0
Lacks c [] = Unit {0}
Lacks c (x ∷ s) = (x ≢ c) × Lacks c s

pub split_on_lacking : (c : ℕ) (s : List ℕ) → Lacks c s → split_on c s ≡ s ∷ []
unfolding split_on
split_on_lacking c [] h = refl
split_on_lacking c (x ∷ s) (n, h) = rw (==_false x c n, split_on_lacking c s h) refl

pub split_on-append :
    (c : ℕ) (s t : List ℕ) → Lacks c s → split_on c (s ++ c ∷ t) ≡ s ∷ split_on c t
unfolding split_on
split_on-append c [] t h = rw ((==_iff c c).1 refl) refl
split_on-append c (x ∷ s) t (n, h) = rw (==_false x c n, split_on-append c s t h) refl

pub Lacks-append : (c : ℕ) (s t : List ℕ) → Lacks c s → Lacks c t → Lacks c (s ++ t)
Lacks-append c [] t h k = k
Lacks-append c (x ∷ s) t (n, h) k = (n, Lacks-append c s t h k)

pub Lacks-left : (c : ℕ) (s t : List ℕ) → Lacks c (s ++ t) → Lacks c s
Lacks-left c [] t h = tt
Lacks-left c (x ∷ s) t (n, h) = (n, Lacks-left c s t h)

push_front-cons :
    (x : ℕ) (ps : List (List ℕ)) → (p : List ℕ) × (qs : List (List ℕ)) × (push_front x ps ≡ p ∷ qs)
push_front-cons x [] = (x ∷ [], [], refl)
push_front-cons x (p ∷ ps) = (x ∷ p, ps, refl)

-- There is a first part.
pub split_on-cons :
    (c : ℕ) (s : List ℕ) → (p : List ℕ) × (ps : List (List ℕ)) × (split_on c s ≡ p ∷ ps)
unfolding split_on
split_on-cons c [] = ([], [], refl)
split_on-cons c (x ∷ s) = elim (Bool-cases (x == c)) [
  | inl e ↦ ([], split_on c s, rw e refl)
  | inr e ↦ rw e (push_front-cons x (split_on c s))
]

-- Two ways to cut one text: the first cut lies before the separator, or behind it.
pub cut_cases :
    (c : ℕ) (x y l z : List ℕ)
    → x ++ y ≡ l ++ c ∷ z
    → ((d : List ℕ) × (l ≡ x ++ d) × (y ≡ d ++ c ∷ z))
      ⊎ ((x' : List ℕ) × (x ≡ l ++ c ∷ x') × (x' ++ y ≡ z))
cut_cases c [] y l z h = inl (l, refl, h)
cut_cases c (a ∷ x) y [] z h = inr (x, cc, cc)
cut_cases c (a ∷ x) y (b ∷ l) z h = elim (cut_cases c x y l z cc) [
  | inl (d, e, q) ↦ inl (d, cc, q)
  | inr (x', e, q) ↦ inr (x', cc, q)
]

pub starts_with-append : (p s : List ℕ) → starts_with (p ++ s) p ≡ true
unfolding starts_with
starts_with-append [] [] = refl
starts_with-append [] (x ∷ s) = refl
starts_with-append (a ∷ p) s = ground (arith, ==_iff a a, starts_with-append p s)

pub drop-length_append : (p s : List ℕ) → drop (length p) (p ++ s) ≡ s
drop-length_append [] s = refl
drop-length_append (a ∷ p) s = drop-length_append p s

pub take-length_append : (p s : List ℕ) → take (length p) (p ++ s) ≡ p
take-length_append [] s = refl
take-length_append (a ∷ p) s = ap (λ l. a ∷ l) (take-length_append p s)

pub remove_prefix-append : (p s : List ℕ) → remove_prefix p (p ++ s) ≡ s
unfolding remove_prefix
remove_prefix-append p s = rw (starts_with-append p s) (drop-length_append p s)

pub ends_with-append : (s q : List ℕ) → ends_with (s ++ q) q ≡ true
unfolding ends_with
ends_with-append [] [] = refl
ends_with-append [] (x ∷ q) = rw (same_text_refl (x ∷ q)) refl
ends_with-append (x ∷ s) q = elim (Bool-cases (same_text (x ∷ s ++ q) q)) [
  | inl e ↦ rw e refl
  | inr e ↦ rw e (ends_with-append s q)
]

pub remove_suffix-append : (q s : List ℕ) → remove_suffix q (s ++ q) ≡ s
unfolding remove_suffix
remove_suffix-append q s =
    let size : length (s ++ q) - length q ≡ length s = omega (arith, length-append s q) in
    rw (ends_with-append s q, size) (take-length_append s q)
