-- ===== src/Concurrency/Treiber.antt =====
-- content/exercises/c1/05-treiber-stack/starter.cpp: the stack, the parking of nodes by `retire`,
-- interleaved between its calls, and the destructor. A pointer is an address, and NULL is `none`; a
-- whole operation is `none` where it would read or free a node that is not allocated.
pub mod Chain
pub mod Invariant
pub mod Turns
pub mod Counts
pub mod Work
pub mod Progress
pub mod Linear
pub mod Destroy
use cppcourse.Base.{
  ℕ, zero, suc, ◌+◌, ◌==◌, Bool, true, false, ◌&&◌, ◌||◌, not, List, [], ◌∷◌, Option, none, some,
  if◌then◌else◌,
}
use cppcourse.Base.Checked.{◌>>=◌}
use cppcourse.Base.Int.{ℤ}

-- `struct Node`
pub record Node : Type 0 where
  pub value : ℤ
  pub next : Option ℕ
  pub rnext : Option ℕ

pub record TreiberStack : Type 0 where
  pub heap : ℕ → Option Node
  pub head : Option ℕ
  pub retired : Option ℕ

abbrev pub update {ℓ} : {A : Type ℓ} → (ℕ → A) → ℕ → A → ℕ → A
update f p v q = if q == p then v else f q

abbrev pub same_pointer : Option ℕ → Option ℕ → Bool
same_pointer none none = true
same_pointer none (some q) = false
same_pointer (some p) none = false
same_pointer (some p) (some q) = p == q

-- `new TreiberStack()`, with nothing else allocated
unfoldable pub ts_create : TreiberStack
ts_create = record { heap = λ p. none; head = none; retired = none }

-- `push` and `pop` as they stand.
unfoldable pub push : ℤ → TreiberStack → TreiberStack
push v s = s

unfoldable pub pop : TreiberStack → TreiberStack × Bool
pop s = (s, false)

unfoldable pub ts_push : ℤ → TreiberStack → TreiberStack
ts_push v s = push v s

-- The value that `*o` gets is the one it had.
unfoldable pub ts_pop : TreiberStack → TreiberStack × ℕ
ts_pop s = let (s', found) = pop s in (s', if found then 1 else 0)

-- `n->rnext = p`
abbrev pub set_rnext : ℕ → Option ℕ → TreiberStack → Option TreiberStack
set_rnext n p s =
    s.heap n >>= λ nd. some (record s { heap = update s.heap n (some (record nd { rnext = p })) })

-- Where a call `retire(n)` stands. The node is not reachable for others until the exchange succeeds, so
-- the accesses to `n->rnext` need no steps of their own.
pub data Call : Type 0 where
  absent : Call  -- there is no such call
  entered : Call  -- before the load of `retired_`
  trying : Call  -- before an exchange
  returned : Call

-- `n->rnext = retired_.load(...)`
unfoldable pub load_retired : ℕ → TreiberStack → Option TreiberStack
load_retired n s = set_rnext n s.retired s

-- `retired_.compare_exchange_weak(n->rnext, n, ...)`, which may fail although the pointers are equal, and
-- where it fails writes what it read to `n->rnext`; with its result.
unfoldable pub exchange : (spurious : Bool) → ℕ → TreiberStack → Option (TreiberStack × Bool)
exchange spurious n s = s.heap n >>= λ nd.
    if same_pointer nd.rnext s.retired && not spurious
    then some (record s { retired = some n }, true)
    else set_rnext n s.retired s >>= λ s'. some (s', false)

-- The calls of `retire` in progress, by the node that they park.
pub record System : Type 0 where
  pub stack : TreiberStack
  pub calls : ℕ → Call

-- The next access of the call for `node` to shared memory.
pub record Turn : Type 0 where
  pub node : ℕ
  pub spurious : Bool

unfoldable pub retire : Call → Turn → TreiberStack → Option (TreiberStack × Call)
unfolding load_retired exchange
retire absent t s = some (s, absent)
retire entered t s = load_retired t.node s >>= λ s'. some (s', trying)
retire trying t s =
    exchange t.spurious t.node s >>= λ r. some (r.0, if r.1 then returned else trying)
retire returned t s = some (s, returned)

unfoldable pub step : Turn → System → Option System
step t s = retire (s.calls t.node) t s.stack >>= λ r.
    some (record { stack = r.0; calls = update s.calls t.node r.1 })

-- The accesses in the order in which they happen.
unfoldable pub run : List Turn → System → Option System
run [] s = some s
run (t ∷ ts) s = step t s >>= λ s'. run ts s'

-- `delete n`
abbrev pub delete : (ℕ → Option Node) → ℕ → ℕ → Option Node
delete h n = update h n none

-- `for (Node* n = p; n; ) { Node* nx = n->link; delete n; n = nx; }`, where `link` is `next` or `rnext`.
-- With the fuel used up the result is `none` too.
unfoldable pub free_chain :
    ℕ → (Node → Option ℕ) → Option ℕ → (ℕ → Option Node) → Option (ℕ → Option Node)
free_chain fuel link none h = some h
free_chain zero link (some n) h = none
free_chain (suc fuel) link (some n) h = h n >>= λ nd. free_chain fuel link (link nd) (delete h n)

-- `~TreiberStack()`, with fuel for each of its loops: what is allocated afterwards.
unfoldable pub destroy : ℕ → TreiberStack → Option (ℕ → Option Node)
destroy fuel s = free_chain fuel (λ nd. nd.next) s.head s.heap >>= λ h.
    free_chain fuel (λ nd. nd.rnext) s.retired h

unfoldable pub ts_destroy : ℕ → TreiberStack → Option (ℕ → Option Node)
ts_destroy fuel s = destroy fuel s
