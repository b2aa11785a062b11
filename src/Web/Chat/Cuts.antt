-- ===== src/Web/Chat/Cuts.antt =====
-- web/ai-chat.js: whole lines in a text that arrives in pieces.
use cppcourse.Base.{ℕ, ◌≡◌, refl, ap, inl, inr, List, [], ◌∷◌, ◌++◌}
use cppcourse.Base.Strings.{
  split_on, split_on_lacking, split_on-append, split_on-cons, Lacks-left, Lacks, cut_cases,
}
use cppcourse.Web.Chat.{pop}

-- Lines, each with its line end.
abbrev pub unlines : List (List ℕ) → List ℕ
unlines [] = []
unlines (l ∷ ls) = l ++ 10 ∷ unlines ls

abbrev pub AllLack : List (List ℕ) → Type 0
AllLack [] = Unit {0}
AllLack (l ∷ ls) = Lacks 10 l × AllLack ls

-- The first part `x` of a text of whole lines: the lines that are whole in it, and the start of the next.
abbrev pub Cut : List (List ℕ) → List ℕ → List ℕ → Type 0
Cut ls x y =
    (a : List (List ℕ)) × (b : List (List ℕ)) × (r : List ℕ) × (ls ≡ a ++ b)
    × (pop (split_on 10 x) ≡ (a, r))
    × Lacks 10 r
    × (r ++ y ≡ unlines b)

pop-cons :
    (l : List ℕ) (a : List (List ℕ)) (r : List ℕ) (c : ℕ) (s : List ℕ)
    → pop (split_on c s) ≡ (a, r)
    → pop (l ∷ split_on c s) ≡ (l ∷ a, r)
pop-cons l a r c s h =
    let (p, ps, e) = split_on-cons c s in
    let h' : pop (p ∷ ps) ≡ (a, r) = rw (← e) h in
    rw e (ap (λ (t : List (List ℕ) × List ℕ). (l ∷ t.0, t.1)) h')

pub cut : (ls : List (List ℕ)) (x y : List ℕ) → AllLack ls → x ++ y ≡ unlines ls → Cut ls x y
unfolding split_on
cut [] [] y h e = ([], [], [], refl, refl, tt, e)
cut [] (c ∷ x) y h e = cc
cut (l ∷ ls) x y (k, h) e = elim (cut_cases 10 x y l (unlines ls) e) [
  | inl (d, p, q) ↦
      let start : Lacks 10 x = Lacks-left 10 x d (rw (← p) k) in
      ([], l ∷ ls, x, refl, rw (split_on_lacking 10 x start) refl, start, e)
  | inr (x', p, q) ↦
      let (a, b, r, whole, popped, lacks, rest) = cut ls x' y h q in
      (
        l ∷ a,
        b,
        r,
        ap (λ t. l ∷ t) whole,
        rw p (rw (split_on-append 10 l x' k) (pop-cons l a r 10 x' popped)),
        lacks,
        rest,
      )
]

pub AllLack-right : (a b : List (List ℕ)) → AllLack (a ++ b) → AllLack b
AllLack-right [] b h = h
AllLack-right (l ∷ a) b (k, h) = AllLack-right a b h

-- A text without a line end that consists of whole lines has none.
pub unlines_lacking : (ls : List (List ℕ)) (s : List ℕ) → Lacks 10 s → s ≡ unlines ls → ls ≡ []
unlines_lacking [] s h e = refl
unlines_lacking (l ∷ ls) s h e = absurd (no_end l (unlines ls) (rw (← e) h))
  where
    no_end : (l t : List ℕ) → Lacks 10 (l ++ 10 ∷ t) → ⊥
    no_end [] t (n, h) = n refl
    no_end (x ∷ l) t (n, h) = no_end l t h
