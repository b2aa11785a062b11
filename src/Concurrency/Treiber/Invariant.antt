-- ===== src/Concurrency/Treiber/Invariant.antt =====
-- content/exercises/c1/05-treiber-stack/starter.cpp: the stack's two lists and the calls of `retire`,
-- and how the writes of a call keep them.
use cppcourse.Base.{
  ℕ, ◌==◌, ◌≡◌, refl, ap, arith, inl, inr, Bool, true, false, ◌&&◌, ◌||◌, List, [], ◌∷◌, Option,
  none, some, Bool-cases, Option-cases, ==_iff,
}
use cppcourse.Concurrency.Treiber.{
  Node, update, same_pointer, Call, absent, entered, trying, returned, System,
}
use cppcourse.Concurrency.Treiber.Chain.{contains, IsDistinct, Chain, Chain-agree}

abbrev pub is_pending : Call → Bool
is_pending absent = false
is_pending entered = true
is_pending trying = true
is_pending returned = false

abbrev pub is_returned : Call → Bool
is_returned absent = false
is_returned entered = false
is_returned trying = false
is_returned returned = true

abbrev pub is_allocated {ℓ} : {A : Type ℓ} → Option A → Bool
is_allocated none = false
is_allocated (some a) = true

-- The nodes `hs` are on the stack, `rs` are retired, in the order of the lists; those whose calls are in
-- progress are allocated and on neither list.
pub record Parks (s : System) (hs rs : List ℕ) : Type 0 where
  pub on_stack : Chain (λ nd. nd.next) s.stack.heap s.stack.head hs
  pub parked : Chain (λ nd. nd.rnext) s.stack.heap s.stack.retired rs
  pub stack_distinct : IsDistinct hs
  pub parked_distinct : IsDistinct rs
  pub exact : (n : ℕ) → contains n rs ≡ is_returned (s.calls n)
  pub apart :
      (n : ℕ) → (contains n hs && (is_returned (s.calls n) || is_pending (s.calls n))) ≡ false
  pub allocated :
      (n : ℕ)
      → is_allocated (s.stack.heap n)
        ≡ (contains n hs || (is_returned (s.calls n) || is_pending (s.calls n)))

-- A chain of `next` does not see a write to `rnext`.
next-set_rnext :
    (h : ℕ → Option Node) (n : ℕ) (nd : Node) (r p : Option ℕ) (xs : List ℕ)
    → h n ≡ some nd
    → Chain (λ m. m.next) h p xs
    → Chain (λ m. m.next) (update h n (some (record nd { rnext = r }))) p xs
next-set_rnext h n nd r p [] at c = c
next-set_rnext h n nd r p (x ∷ xs) at (e, (md, at', rest)) = elim (Bool-cases (x == n)) [
  | inl same ↦
      let here : x ≡ n = (==_iff x n).0 same in
      let found : some md ≡ some nd = cc in
      let eq : md.next ≡ nd.next = ground arith in
      (
        e,
        (
          record nd { rnext = r },
          rw same refl,
          next-set_rnext h n nd r nd.next xs at (rw (← eq) rest),
        ),
      )
  | inr other ↦ (e, (md, rw other at', next-set_rnext h n nd r md.next xs at rest))
]

pub same_pointer_eq : (p q : Option ℕ) → same_pointer p q ≡ true → p ≡ q
same_pointer_eq none none e = refl
same_pointer_eq none (some q) e = cc
same_pointer_eq (some p) none e = cc
same_pointer_eq (some p) (some q) e = ap some ((==_iff p q).0 e)

-- The call for `n` has written `n->rnext`.
unfoldable pub rewritten : System → ℕ → Node → Option ℕ → Call → System
rewritten s n nd r c = record {
  stack = record s.stack { heap = update s.stack.heap n (some (record nd { rnext = r })) };
  calls = update s.calls n c;
}

-- The exchange of the call for `n` has succeeded.
unfoldable pub linked : System → ℕ → System
linked s n = record {
  stack = record s.stack { retired = some n };
  calls = update s.calls n returned;
}

module _ {s : System} {hs rs : List ℕ} (inv : Parks s hs rs) (n : ℕ) where
  -- The node of a call in progress.
  pub pending_node : is_pending (s.calls n) ≡ true → (nd : Node) × (s.stack.heap n ≡ some nd)
  pending_node p = elim (Option-cases (s.stack.heap n)) [
    | inl e ↦ absurd (ground (arith, inv.allocated n))
    | inr found ↦ found
  ]

  not_parked : is_pending (s.calls n) ≡ true → contains n rs ≡ false
  not_parked p = ground (arith, inv.exact n)

  -- The call writes `n->rnext` and stays in progress.
  pub rewritten-Parks :
      (nd : Node) (r : Option ℕ) (c : Call)
      → is_pending (s.calls n) ≡ true
      → s.stack.heap n ≡ some nd
      → is_pending c ≡ true
      → Parks (rewritten s n nd r c) hs rs
  unfolding rewritten
  rewritten-Parks nd r c p at q = record {
    on_stack = next-set_rnext s.stack.heap n nd r s.stack.head hs at inv.on_stack;
    parked = Chain-agree _ s.stack.heap _ s.stack.retired rs same inv.parked;
    stack_distinct = inv.stack_distinct;
    parked_distinct = inv.parked_distinct;
    exact = λ m. ground (arith, inv.exact m, ==_iff m n);
    apart = λ m. ground (arith, inv.apart m, ==_iff m n);
    allocated = λ m. ground (arith, inv.allocated m, ==_iff m n);
  }
    where
      same :
          (m : ℕ)
          → contains m rs ≡ true
          → update s.stack.heap n (some (record nd { rnext = r })) m ≡ s.stack.heap m
      same m k = ground (arith, not_parked p, ==_iff m n)

  -- The exchange succeeds.
  pub linked-Parks :
      (nd : Node)
      → is_pending (s.calls n) ≡ true
      → s.stack.heap n ≡ some nd
      → nd.rnext ≡ s.stack.retired
      → Parks (linked s n) hs (n ∷ rs)
  unfolding linked
  linked-Parks nd p at e = record {
    on_stack = inv.on_stack;
    parked = (refl, (nd, at, rw e inv.parked));
    stack_distinct = inv.stack_distinct;
    parked_distinct = (not_parked p, inv.parked_distinct);
    exact = λ m. ground (arith, inv.exact m, ==_iff m n);
    apart = λ m. ground (arith, inv.apart m, ==_iff m n);
    allocated = λ m. ground (arith, inv.allocated m, ==_iff m n);
  }
