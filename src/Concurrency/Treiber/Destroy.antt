-- ===== src/Concurrency/Treiber/Destroy.antt =====
-- content/exercises/c1/05-treiber-stack/starter.cpp: the destructor frees every node once.
use cppcourse.Base.{ℕ, ◌+◌, ◌≤◌, ◌≡◌, arith, true, List, Option, some, length}
use cppcourse.Concurrency.Treiber.{Node, System, Turn, run, destroy}
use cppcourse.Concurrency.Treiber.Chain.{contains, without, Chain-agree, free_chain_lem}
use cppcourse.Concurrency.Treiber.Invariant.{is_allocated, is_pending, Parks}
use cppcourse.Concurrency.Treiber.Turns.{run-Parks}

module _ {s : System} {hs rs : List ℕ} (inv : Parks s hs rs) where
  -- The retired nodes are still there when the nodes on the stack are freed.
  still_there : (q : ℕ) → contains q rs ≡ true → without hs s.stack.heap q ≡ s.stack.heap q
  still_there q m = ground (arith, inv.exact q, inv.apart q)

  destroy-without :
      (fuel : ℕ)
      → length hs ≤ fuel
      → length rs ≤ fuel
      → destroy fuel s.stack ≡ some (without rs (without hs s.stack.heap))
  unfolding destroy
  destroy-without fuel a b =
      rw (free_chain_lem fuel _ s.stack.head s.stack.heap hs a inv.on_stack inv.stack_distinct) (
        free_chain_lem fuel _ s.stack.retired _ rs b
          (Chain-agree _ s.stack.heap _ s.stack.retired rs still_there inv.parked)
          inv.parked_distinct)

  left_over :
      (q : ℕ) → is_allocated (without rs (without hs s.stack.heap) q) ≡ is_pending (s.calls q)
  left_over q = ground (arith, inv.exact q, inv.apart q, inv.allocated q)

-- After any run the destructor ends and frees each node on the two lists once; what is left allocated are
-- the nodes whose calls of `retire` are in progress, so nothing when all have returned.
pub destroy-run :
    (s : System) (hs rs : List ℕ)
    → Parks s hs rs
    → (ts : List Turn)
    → (s' : System) × (run ts s ≡ some s')
      × ((fuel : ℕ) × (h : ℕ → Option Node) × (destroy fuel s'.stack ≡ some h)
          × ((q : ℕ) → is_allocated (h q) ≡ is_pending (s'.calls q)))
destroy-run s hs rs inv ts =
    let (s', ran, (rs', inv')) = run-Parks ts inv in
    (
      s',
      ran,
      (
        length hs + length rs',
        without rs' (without hs s'.stack.heap),
        destroy-without inv' (length hs + length rs') (omega arith) (omega arith),
        left_over inv',
      ),
    )
