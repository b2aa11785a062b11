-- ===== src/Concurrency/Treiber/Chain.antt =====
-- content/exercises/c1/05-treiber-stack/starter.cpp: chains of nodes in the heap, and the lists that
-- they hold.
use cppcourse.Base.{
  ℕ, zero, suc, ◌≤◌, ◌==◌, ◌≡◌, refl, ap, ◌∙◌, arith, inl, inr, Bool, true, false, ◌||◌, List, [],
  ◌∷◌, Option, none, some, length, if◌then◌else◌, Bool-cases, ==_iff,
}
use cppcourse.Concurrency.Treiber.{Node, delete, free_chain}
use mathlib.Core.Path.{fun_ext}

abbrev pub contains : ℕ → List ℕ → Bool
contains a [] = false
contains a (x ∷ xs) = a == x || contains a xs

abbrev pub IsDistinct : List ℕ → Type 0
IsDistinct [] = Unit
IsDistinct (x ∷ xs) = (contains x xs ≡ false) × IsDistinct xs

-- From the pointer on, the nodes of the list in its order and then NULL.
abbrev pub Chain : (Node → Option ℕ) → (ℕ → Option Node) → Option ℕ → List ℕ → Type 0
Chain link h p [] = p ≡ none
Chain link h p (x ∷ xs) = (p ≡ some x) × ((nd : Node) × (h x ≡ some nd) × Chain link h (link nd) xs)

-- A chain stands where two heaps agree on its nodes.
pub Chain-agree :
    (link : Node → Option ℕ) (h h' : ℕ → Option Node) (p : Option ℕ) (xs : List ℕ)
    → ((q : ℕ) → contains q xs ≡ true → h' q ≡ h q)
    → Chain link h p xs
    → Chain link h' p xs
Chain-agree link h h' p [] same c = c
Chain-agree link h h' p (x ∷ xs) same (e, (nd, at, rest)) =
    let at' : h' x ≡ some nd = same x (ground (arith, ==_iff x x)) ∙ at in
    let rest' : Chain link h' (link nd) xs =
      Chain-agree link h h' (link nd) xs (λ q m. same q (ground arith)) rest in
    (e, (nd, at', rest'))

-- What is allocated when the nodes of the list are freed.
abbrev pub without : List ℕ → (ℕ → Option Node) → ℕ → Option Node
without xs h q = if contains q xs then none else h q

pub without-delete :
    (x : ℕ) (xs : List ℕ) (h : ℕ → Option Node) (q : ℕ)
    → without xs (delete h x) q ≡ without (x ∷ xs) h q
without-delete x xs h q = ground arith

-- The loop frees each node of a chain once, and nothing else.
pub free_chain_lem :
    (fuel : ℕ) (link : Node → Option ℕ) (p : Option ℕ) (h : ℕ → Option Node) (xs : List ℕ)
    → length xs ≤ fuel
    → Chain link h p xs
    → IsDistinct xs
    → free_chain fuel link p h ≡ some (without xs h)
unfolding free_chain
free_chain_lem fuel link p h [] room c d = rw c refl
free_chain_lem zero link p h (x ∷ xs) room c d = absurd (omega arith)
free_chain_lem (suc fuel) link p h (x ∷ xs) room (e, (nd, at, rest)) d = rw e (
    rw at (
      free_chain_lem fuel link (link nd) (delete h x) xs (omega arith)
        (Chain-agree link h (delete h x) (link nd) xs (λ q m. apart q m) rest) d.1
      ∙ ap some (fun_ext (without-delete x xs h))))
  where
    apart : (q : ℕ) → contains q xs ≡ true → delete h x q ≡ h q
    apart q m = elim (Bool-cases (q == x)) [
      | inl same ↦ ground (arith, d.0)
      | inr other ↦ rw other refl
    ]
