-- ===== src/Concurrency/Tests.antt =====
-- Runs of the programs of content/exercises/c1.
use cppcourse.Base.{
  ℕ, zero, suc, ◌≤◌, ◌==◌, ◌≡◌, refl, arith, true, false, List, [], ◌∷◌, ◌++◌, Option, none, some,
  replicate, if◌then◌else◌,
}
use cppcourse.Base.Checked.{◌>>=◌}
use cppcourse.Base.Int.{pos}
use cppcourse.Concurrency.Treiber.{
  Node, System, Turn, absent, entered, retire, step, run, destroy, free_chain,
}
use cppcourse.Concurrency.Counters.{counters_create, counters_gap, gap}
use cppcourse.Concurrency.Treiber.Chain.{contains}
use cppcourse.Concurrency.Treiber.Invariant.{is_pending, is_allocated, Parks}
use cppcourse.Concurrency.Treiber.Progress.{
  busy_turns, busy_turns-le, concat, AllFair, takes_turn, run_fair,
}
use cppcourse.Concurrency.Treiber.Work.{Covers}
use cppcourse.Concurrency.Treiber.Linear.{returns, run-returns}
use cppcourse.Concurrency.Treiber.Destroy.{destroy-run}

abbrev at_first : ℕ → Node
at_first n = record { value = pos n; next = none; rnext = none }

-- Node 1 is on the stack, and the calls for the nodes 2 and 3 have just begun.
abbrev two_calls : System
two_calls = record {
  stack = record {
    heap = λ p.
        if p == 1
        then some (at_first 1)
        else if p == 2
        then some (at_first 2)
        else if p == 3
        then some (at_first 3)
        else none;
    head = some 1;
    retired = none;
  };
  calls = λ p. if p == 2 then entered else if p == 3 then entered else absent;
}

two_calls-Parks : Parks two_calls (1 ∷ []) []
two_calls-Parks = record {
  on_stack = (refl, (at_first 1, refl, refl));
  parked = refl;
  stack_distinct = (refl, tt);
  parked_distinct = tt;
  exact = λ n. ground arith;
  apart = λ n. ground arith;
  allocated = λ n. ground arith;
}

two_calls-Covers : Covers two_calls (2 ∷ 3 ∷ [])
two_calls-Covers n p = ground arith

abbrev turn : ℕ → Turn
turn n = record { node = n; spurious = false }

-- Both calls load; the exchange for 3 fails for no reason and then succeeds, so that the one for 2 fails
-- once.
abbrev interleaved : List Turn
interleaved = turn 2 ∷ turn 3 ∷ record { node = 3; spurious = true } ∷ turn 3 ∷ turn 2 ∷ turn 2 ∷ []

abbrev list_heads : System → Option (List (Option ℕ))
list_heads s = s.stack.heap 2 >>= λ nd. some (s.stack.retired ∷ nd.rnext ∷ [])

interleaved_list : (run interleaved two_calls >>= list_heads) ≡ some (some 2 ∷ some 3 ∷ [])
unfolding run step retire
interleaved_list = refl

run-returns_example :
    (s' : System) × (run interleaved two_calls ≡ some s')
    × Parks s' (1 ∷ []) (returns interleaved two_calls ++ [])
run-returns_example = run-returns interleaved two_calls (1 ∷ []) [] two_calls-Parks

interleaved_returns : returns interleaved two_calls ≡ 2 ∷ 3 ∷ []
unfolding returns step retire
interleaved_returns = refl

busy_turns_example : busy_turns interleaved two_calls ≤ 10
busy_turns_example =
    busy_turns-le two_calls (1 ∷ []) [] (2 ∷ 3 ∷ []) two_calls-Parks two_calls-Covers interleaved

interleaved_busy : busy_turns interleaved two_calls ≡ 5
unfolding busy_turns step retire
interleaved_busy = refl

abbrev round : List Turn
round = turn 2 ∷ turn 3 ∷ []

round_fair : (n : ℕ) → contains n (2 ∷ 3 ∷ []) ≡ true → takes_turn n round ≡ true
round_fair n m = ground arith

rounds_AllFair : (k : ℕ) → AllFair (replicate k round) (2 ∷ 3 ∷ [])
rounds_AllFair zero = tt
rounds_AllFair (suc k) = (round_fair, rounds_AllFair k)

run_fair_example :
    (s' : System) × (run (concat (replicate 11 round)) two_calls ≡ some s')
    × ((n : ℕ) → is_pending (s'.calls n) ≡ false)
run_fair_example =
    run_fair two_calls (1 ∷ []) [] (2 ∷ 3 ∷ []) two_calls-Parks two_calls-Covers
      (replicate 11 round) (rounds_AllFair 11) (omega arith)

destroy-run_example :
    (s' : System) × (run interleaved two_calls ≡ some s')
    × ((fuel : ℕ) × (h : ℕ → Option Node) × (destroy fuel s'.stack ≡ some h)
        × ((q : ℕ) → is_allocated (h q) ≡ is_pending (s'.calls q)))
destroy-run_example = destroy-run two_calls (1 ∷ []) [] two_calls-Parks interleaved

-- A node that is parked twice points to itself, and the destructor reads it after it is freed: each node
-- must be handed over to one call.
abbrev again_called : System → System
again_called s = record s { calls = λ p. if p == 2 then entered else s.calls p }

parked_twice :
    (run interleaved two_calls >>= λ s.
    run (turn 2 ∷ turn 2 ∷ []) (again_called s) >>= λ s'. destroy 10 s'.stack)
    ≡ none
unfolding run step retire destroy free_chain
parked_twice = refl

counters_share_line : counters_gap (counters_create 16) ≡ 8
unfolding counters_gap gap counters_create
counters_share_line = refl
