-- ===== src/Concurrency/Treiber/Work.antt =====
-- content/exercises/c1/05-treiber-stack/starter.cpp: a bound on the turns that are left for the calls
-- of `retire`.
use cppcourse.Base.{
  ℕ, ◌+◌, ◌*◌, ◌≤◌, ◌<◌, ◌≡◌, refl, arith, inl, inr, Bool, true, false, ◌&&◌, not, List, Option,
  none, some, length, if◌then◌else◌, Bool-cases, ==_iff,
}
use cppcourse.Concurrency.Treiber.Counts.{count, count-le-length, count_le, count_lt}
use cppcourse.Concurrency.Treiber.{
  Node, same_pointer, Call, absent, entered, trying, returned, System, Turn,
}
use cppcourse.Concurrency.Treiber.Chain.{contains}
use cppcourse.Concurrency.Treiber.Invariant.{is_pending, rewritten, linked}
use cppcourse.Concurrency.Treiber.Turns.{Outcome, idle, load, fail, win}

abbrev pub is_entered : Call → Bool
is_entered absent = false
is_entered entered = true
is_entered trying = false
is_entered returned = false

abbrev pub is_trying : Call → Bool
is_trying absent = false
is_trying entered = false
is_trying trying = true
is_trying returned = false

-- `n->rnext` is not `retired_`, so that the exchange cannot succeed.
abbrev pub is_behind : Option Node → Option ℕ → Bool
is_behind none r = false
is_behind (some nd) r = not (same_pointer nd.rnext r)

pub pending : System → ℕ → Bool
pending s n = is_pending (s.calls n)

pub before_load : System → ℕ → Bool
before_load s n = is_entered (s.calls n)

pub stale : System → ℕ → Bool
stale s n = is_trying (s.calls n) && is_behind (s.stack.heap n) s.stack.retired

-- A bound on the turns that are left for the calls of the list.
unfoldable pub work : System → List ℕ → ℕ
work s ps =
    count (pending s) ps * (count (pending s) ps + 1)
    + count (before_load s) ps
    + count (stale s) ps

-- The turn is one of a call in progress, and not an exchange that fails for no reason.
abbrev pub is_busy : Turn → System → Bool
is_busy t s = is_pending (s.calls t.node) && not t.spurious

abbrev pub cost : Turn → System → ℕ
cost t s = if is_busy t s then 1 else 0

square_step :
    (p p' e e' t t' : ℕ)
    → p' < p
    → t' ≤ p'
    → e' ≤ e
    → 1 + (p' * (p' + 1) + e' + t') ≤ p * (p + 1) + e + t
square_step p p' e e' t t' a b c = grind arith

same_pointer_refl : (p : Option ℕ) → same_pointer p p ≡ true
same_pointer_refl none = refl
same_pointer_refl (some p) = (==_iff p p).1 refl

-- The list names each call in progress.
abbrev pub Covers : System → List ℕ → Type 0
Covers s ps = (n : ℕ) → is_pending (s.calls n) ≡ true → contains n ps ≡ true

pub square_le : (p p' : ℕ) → p' ≤ p → p' * (p' + 1) ≤ p * (p + 1)
square_le p p' a = grind arith

module _ (s : System) (n : ℕ) (ps : List ℕ) (cov : Covers s ps) (nd : Node)
    (at : s.stack.heap n ≡ some nd) where
  -- `n->rnext` is `retired_`, and the call stands before its exchange.
  abbrev again : System
  again = rewritten s n nd s.stack.retired trying

  again-pending : is_pending (s.calls n) ≡ true → count (pending again) ps ≤ count (pending s) ps
  unfolding pending rewritten
  again-pending p = count_le _ _ ps (λ x. ground (arith, ==_iff x n))

  again-before_load : (x : ℕ) → (before_load again x && not (before_load s x)) ≡ false
  unfolding before_load rewritten
  again-before_load x = ground (arith, ==_iff x n)

  again-stale : (x : ℕ) → (stale again x && not (stale s x)) ≡ false
  unfolding stale rewritten
  again-stale x = ground (arith, ==_iff x n, same_pointer_refl s.stack.retired)

  not_before_load : before_load again n ≡ false
  unfolding before_load rewritten
  not_before_load = ground (arith, ==_iff n n)

  not_stale : stale again n ≡ false
  unfolding stale rewritten
  not_stale = ground (arith, ==_iff n n, same_pointer_refl s.stack.retired)

  load-work : s.calls n ≡ entered → 1 + work again ps ≤ work s ps
  unfolding work
  load-work c = omega (
    arith,
    square_le _ _ (again-pending (rw c refl)),
    count_lt (before_load again) (before_load s) n ps (cov n (rw c refl)) not_before_load entering
        again-before_load,
    count_le (stale again) (stale s) ps again-stale,
  )
    where
      entering : before_load s n ≡ true
      entering = unfold before_load in rw c refl

  fail_le : s.calls n ≡ trying → work again ps ≤ work s ps
  unfolding work
  fail_le c = omega (
    arith,
    square_le _ _ (again-pending (rw c refl)),
    count_le (before_load again) (before_load s) ps again-before_load,
    count_le (stale again) (stale s) ps again-stale,
  )

  fail_lt :
      s.calls n ≡ trying
      → same_pointer nd.rnext s.stack.retired ≡ false
      → 1 + work again ps ≤ work s ps
  unfolding work
  fail_lt c h = omega (
    arith,
    square_le _ _ (again-pending (rw c refl)),
    count_le (before_load again) (before_load s) ps again-before_load,
    count_lt (stale again) (stale s) n ps (cov n (rw c refl)) not_stale behind again-stale,
  )
    where
      behind : stale s n ≡ true
      behind = unfold stale in rw c (rw at (rw h refl))

  linked-pending : (x : ℕ) → (pending (linked s n) x && not (pending s x)) ≡ false
  unfolding pending linked
  linked-pending x = ground (arith, ==_iff x n)

  win-work : s.calls n ≡ trying → 1 + work (linked s n) ps ≤ work s ps
  unfolding work
  win-work c =
      square_step _ _ _ _ _ _
        (count_lt (pending (linked s n)) (pending s) n ps (cov n (rw c refl)) done doing
          linked-pending)
        (count_le (stale (linked s n)) (pending (linked s n)) ps stale_pending)
        (count_le (before_load (linked s n)) (before_load s) ps earlier)
    where
      done : pending (linked s n) n ≡ false
      done = unfold pending linked in ground (arith, ==_iff n n)

      doing : pending s n ≡ true
      doing = unfold pending in rw c refl

      stale_pending : (x : ℕ) → (stale (linked s n) x && not (pending (linked s n) x)) ≡ false
      stale_pending x = unfold stale pending linked in ground arith

      earlier : (x : ℕ) → (before_load (linked s n) x && not (before_load s x)) ≡ false
      earlier x = unfold before_load linked in ground (arith, ==_iff x n)

pub Outcome-work :
    {s s' : System} (t : Turn) (ps : List ℕ)
    → Covers s ps
    → Outcome s t s'
    → cost t s + work s' ps ≤ work s ps
Outcome-work {s} t ps cov (idle p e) = rw (e, p) (omega arith)
Outcome-work {s} t ps cov (load nd at c e) =
    rw (e, c) (grind (arith, load-work s t.node ps cov nd at c))
Outcome-work {s} t ps cov (fail nd at c h e) = elim (Bool-cases t.spurious) [
  | inl b ↦ rw (e, c, b) (omega (arith, fail_le s t.node ps cov nd at c))
  | inr b ↦ rw (e, c, b) (omega (arith, fail_lt s t.node ps cov nd at c (ground arith)))
]
Outcome-work {s} t ps cov (win nd at c h e) =
    rw (e, c) (grind (arith, win-work s t.node ps cov nd at c))

-- A call in progress after a turn was in progress before it.
pub Outcome-pending :
    {s s' : System} (t : Turn)
    → Outcome s t s'
    → (n : ℕ) → is_pending (s'.calls n) ≡ true
    → is_pending (s.calls n) ≡ true
unfolding rewritten linked
Outcome-pending t (idle p e) n h = rw (← e) h
Outcome-pending t (load nd at c e) n h = ground (arith, ==_iff n t.node)
Outcome-pending t (fail nd at c k e) n h = ground (arith, ==_iff n t.node)
Outcome-pending t (win nd at c k e) n h = ground (arith, ==_iff n t.node)

pub work-le : (s : System) (ps : List ℕ) → work s ps ≤ length ps * (length ps + 3)
unfolding work
work-le s ps = grind (
  arith,
  square_le _ _ (count-le-length (pending s) ps),
  count-le-length (before_load s) ps,
  count-le-length (stale s) ps,
)
