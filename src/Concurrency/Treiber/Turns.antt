-- ===== src/Concurrency/Treiber/Turns.antt =====
-- content/exercises/c1/05-treiber-stack/starter.cpp: what a turn does, and the retired list of a run: it
-- holds the nodes whose calls of `retire` have returned.
use cppcourse.Base.{
  ℕ, ◌≤◌, ◌≡◌, refl, ap, arith, inl, inr, true, false, ◌&&◌, not, List, [], ◌∷◌, some, length,
  Bool-cases, ==_iff,
}
use cppcourse.Concurrency.Treiber.{
  Node, update, same_pointer, Call, absent, entered, trying, returned, System, Turn, step, run,
  retire, exchange, load_retired,
}
use mathlib.Core.Path.{fun_ext}
use cppcourse.Concurrency.Treiber.Invariant.{
  is_pending, Parks, rewritten, linked, rewritten-Parks, linked-Parks, pending_node,
  same_pointer_eq,
}

-- What a turn does.
pub data Outcome (s : System) (t : Turn) (s' : System) : Type 0 where
  idle : is_pending (s.calls t.node) ≡ false → s' ≡ s → Outcome s t s'
  load :
      (nd : Node)
      → s.stack.heap t.node ≡ some nd
      → s.calls t.node ≡ entered
      → s' ≡ rewritten s t.node nd s.stack.retired trying
      → Outcome s t s'
  fail :
      (nd : Node)
      → s.stack.heap t.node ≡ some nd
      → s.calls t.node ≡ trying
      → (same_pointer nd.rnext s.stack.retired && not t.spurious) ≡ false
      → s' ≡ rewritten s t.node nd s.stack.retired trying
      → Outcome s t s'
  win :
      (nd : Node)
      → s.stack.heap t.node ≡ some nd
      → s.calls t.node ≡ trying
      → (same_pointer nd.rnext s.stack.retired && not t.spurious) ≡ true
      → s' ≡ linked s t.node
      → Outcome s t s'

update_same : (f : ℕ → Call) (n : ℕ) (c : Call) → f n ≡ c → update f n c ≡ f
update_same f n c e = fun_ext (λ m. ground (arith, ==_iff m n))

abbrev pub Stepped : System → Turn → Type 0
Stepped s t = (s' : System) × (step t s ≡ some s') × Outcome s t s'

pub step-Outcome : {s : System} {hs rs : List ℕ} → Parks s hs rs → (t : Turn) → Stepped s t
unfolding step retire exchange load_retired rewritten linked
step-Outcome {s} inv t = go (s.calls t.node) refl
  where
    n : ℕ
    n = t.node

    go : (c : Call) → s.calls t.node ≡ c → Stepped s t
    go absent e = (
      s,
      rw e
          (ap (λ f. some (record { stack = s.stack; calls = f })) (update_same s.calls n absent e)),
      Outcome.idle (rw e refl) refl,
    )
    go returned e = (
      s,
      rw e (
          ap (λ f. some (record { stack = s.stack; calls = f }))
            (update_same s.calls n returned e)),
      Outcome.idle (rw e refl) refl,
    )
    go entered e =
        let (nd, at) = pending_node inv n (rw e refl) in
        (rewritten s n nd s.stack.retired trying, rw e (rw at refl), Outcome.load nd at e refl)
    go trying e =
        let (nd, at) = pending_node inv n (rw e refl) in
        elim (Bool-cases (same_pointer nd.rnext s.stack.retired && not t.spurious)) [
          | inl h ↦ (linked s n, rw e (rw at (rw h refl)), Outcome.win nd at e h refl)
          | inr h ↦ (
            rewritten s n nd s.stack.retired trying,
            rw e (rw at (rw h refl)),
            Outcome.fail nd at e h refl,
          )
        ]

-- After a turn the nodes on the stack are the same, and none of the retired ones is gone.
abbrev Kept : List ℕ → List ℕ → System → Type 0
Kept hs rs s' = (rs' : List ℕ) × Parks s' hs rs' × (length rs ≤ length rs')

pub Outcome-Parks :
    {s s' : System} {hs rs : List ℕ} (t : Turn) → Parks s hs rs → Outcome s t s' → Kept hs rs s'
Outcome-Parks {rs} t inv (Outcome.idle p e) = rw e (rs, inv, omega arith)
Outcome-Parks {rs} t inv (Outcome.load nd at c e) =
    rw e (rs, rewritten-Parks inv t.node nd _ trying (rw c refl) at refl, omega arith)
Outcome-Parks {rs} t inv (Outcome.fail nd at c h e) =
    rw e (rs, rewritten-Parks inv t.node nd _ trying (rw c refl) at refl, omega arith)
Outcome-Parks {rs} t inv (Outcome.win nd at c h e) = rw e (
  t.node ∷ rs,
  linked-Parks inv t.node nd (rw c refl) at (same_pointer_eq _ _ (ground arith)),
  omega arith,
)

-- Whatever the order of the accesses and the exchanges that fail, no access faults, and the retired list
-- holds exactly the nodes whose calls have returned, each once; the stack is as it was.
pub run-Parks :
    (ts : List Turn) {s : System} {hs rs : List ℕ}
    → Parks s hs rs
    → (s' : System) × (run ts s ≡ some s') × ((rs' : List ℕ) × Parks s' hs rs')
unfolding run
run-Parks [] {s} {hs} {rs} inv = (s, refl, (rs, inv))
run-Parks (t ∷ ts) {s} inv =
    let (u, first, out) = step-Outcome inv t in
    let (rs', inv', _) = Outcome-Parks t inv out in
    let (s', rest, kept) = run-Parks ts inv' in (s', rw first rest, kept)
