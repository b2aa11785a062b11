-- ===== src/Concurrency/Treiber/Linear.antt =====
-- content/exercises/c1/05-treiber-stack/starter.cpp: each call of `retire` puts its node on the list as if
-- in one step, when it returns.
use cppcourse.Base.{
  ℕ, ◌≡◌, refl, ap, sym, ◌∙◌, arith, Bool, true, false, ◌&&◌, not, List, [], ◌∷◌, ◌++◌, none, some,
  if◌then◌else◌, ==_iff,
}
use mathlib.Core.Path.{subst}
use mathlib.Core.List.{append_assoc}
use cppcourse.Concurrency.Treiber.{trying, System, Turn, step, run}
use cppcourse.Concurrency.Treiber.Invariant.{
  is_returned, Parks, rewritten, linked, rewritten-Parks, linked-Parks, same_pointer_eq,
}
use cppcourse.Concurrency.Treiber.Turns.{Outcome, idle, load, fail, win, step-Outcome}

-- The node whose call returns with the turn, if any.
abbrev returning : Turn → System → System → List ℕ
returning t s s' =
    if is_returned (s'.calls t.node) && not (is_returned (s.calls t.node)) then t.node ∷ [] else []

-- The nodes whose calls return in a run, the last one first.
unfoldable pub returns : List Turn → System → List ℕ
returns [] s = []
returns (t ∷ ts) s = elim (step t s) [ none ↦ [] | some s' ↦ returns ts s' ++ returning t s s' ]

not_both : (n : ℕ) (b : Bool) → (if b && not b then n ∷ [] else []) ≡ []
not_both n true = refl
not_both n false = refl

Outcome-returning :
    {s s' : System} {hs rs : List ℕ} (t : Turn)
    → Parks s hs rs
    → Outcome s t s'
    → Parks s' hs (returning t s s' ++ rs)
unfolding rewritten linked
Outcome-returning {s} {s'} {hs} {rs} t inv (idle p e) =
    let quiet : returning t s s' ≡ [] = rw e (not_both t.node (is_returned (s.calls t.node))) in
    subst (λ l. Parks s' hs (l ++ rs)) (sym quiet) (rw e inv)
Outcome-returning {s} {s'} {hs} {rs} t inv (load nd at c e) =
    let quiet : returning t s s' ≡ [] = rw e (ground (arith, ==_iff t.node t.node)) in
    subst (λ l. Parks s' hs (l ++ rs)) (sym quiet)
      (rw e (rewritten-Parks inv t.node nd _ trying (rw c refl) at refl))
Outcome-returning {s} {s'} {hs} {rs} t inv (fail nd at c h e) =
    let quiet : returning t s s' ≡ [] = rw e (ground (arith, ==_iff t.node t.node)) in
    subst (λ l. Parks s' hs (l ++ rs)) (sym quiet)
      (rw e (rewritten-Parks inv t.node nd _ trying (rw c refl) at refl))
Outcome-returning {s} {s'} {hs} {rs} t inv (win nd at c h e) =
    let alone : returning t s s' ≡ t.node ∷ [] = rw e (ground (arith, ==_iff t.node t.node)) in
    subst (λ l. Parks s' hs (l ++ rs)) (sym alone)
      (rw e (linked-Parks inv t.node nd (rw c refl) at (same_pointer_eq _ _ (ground arith))))

returns-step :
    (t : Turn) (ts : List Turn) (s u : System)
    → step t s ≡ some u
    → returns (t ∷ ts) s ≡ returns ts u ++ returning t s u
unfolding returns
returns-step t ts s u e = rw (e, returns) refl

-- Whatever the order of the accesses and the exchanges that fail, no access faults, the stack is as it
-- was, and the retired list has before the nodes that it had those whose calls have returned since, the
-- last one first: as if each call put its node there in one step.
pub run-returns :
    (ts : List Turn) (s : System) (hs rs : List ℕ)
    → Parks s hs rs
    → (s' : System) × (run ts s ≡ some s') × Parks s' hs (returns ts s ++ rs)
unfolding run returns
run-returns [] s hs rs inv = (s, refl, inv)
run-returns (t ∷ ts) s hs rs inv =
    let (u, first, out) = step-Outcome inv t in
    let (s', rest, inv') =
      run-returns ts u hs (returning t s u ++ rs) (Outcome-returning t inv out) in
    let grouped = append_assoc (returns ts u) (returning t s u) rs in
    let split = ap (λ l. l ++ rs) (returns-step t ts s u first) in
    (s', rw first rest, subst (λ l. Parks s' hs l) (sym grouped ∙ sym split) inv')
