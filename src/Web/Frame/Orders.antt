-- ===== src/Web/Frame/Orders.antt =====
-- web/app.js: the orders in which modules are chosen and lectures come.
use cppcourse.Base.{
  ℕ, ◌+◌, zero, suc, ◌≡◌, refl, arith, true, List, [], ◌∷◌, ◌++◌, length-append, Option, none, some,
}
use cppcourse.Web.Frame.{
  Module, Part, text, Page, start, switch_tab, initial_tab, load_module, lecture_came, pick,
  Request, of_lecture, of_quiz, of_mentor, came, failed, Event, choose, comes, fails, click,
  go_to_exercise, reset, step, run,
}
use cppcourse.Web.Frame.Clicks.{click-Consistent, go_to_exercise-Consistent, reset-Consistent}
use cppcourse.Web.Frame.Loads.{
  AllParts, AllRequests, AllOwn, owner, is_lecture, is_mentor, sum_of, Consistent,
  switch_tab-Consistent, load_module-Consistent,
}

-- A module is chosen only when the answer to no request is waited for.
abbrev Waits : Event → Page → Type 0
Waits (choose m) p = p.requests ≡ []
Waits (comes n) p = Unit {0}
Waits (fails n) p = Unit {0}
Waits (click t) p = Unit {0}
Waits go_to_exercise p = Unit {0}
Waits (reset confirmed) p = Unit {0}

abbrev pub Calm : List Event → Page → Type 0
Calm [] p = Unit {0}
Calm (e ∷ es) p = Waits e p × Calm es (step e p)

-- What is picked belongs to the module that all belong to, and counts among them.
abbrev Picked : Option Module → List Request → Option (Request × List Request) → Type 0
Picked cur rs none = Unit {0}
Picked cur rs (some (r, rest)) =
    (cur ≡ some (owner r))
    × AllRequests cur rest
    × (sum_of is_lecture rs ≡ is_lecture r + sum_of is_lecture rest)
    × (sum_of is_mentor rs ≡ is_mentor r + sum_of is_mentor rest)

pick-cons-Picked :
    (cur : Option Module) (r : Request) (rs : List Request)
    (picked : Option (Request × List Request))
    → cur ≡ some (owner r)
    → Picked cur rs picked
    → Picked cur (r ∷ rs) (elim picked [ none ↦ none | some (x, rest) ↦ some (x, r ∷ rest) ])
pick-cons-Picked cur r rs none e h = tt
pick-cons-Picked cur r rs (some (x, rest)) e (own, all, n, k) =
    (own, (e, all), omega (arith, n), omega (arith, k))

pick-Picked :
    (cur : Option Module) (n : ℕ) (rs : List Request)
    → AllRequests cur rs
    → Picked cur rs (pick n rs)
pick-Picked cur n [] h = tt
pick-Picked cur zero (r ∷ rs) (e, h) = (e, h, refl, refl)
pick-Picked cur (suc n) (r ∷ rs) (e, h) =
    pick-cons-Picked cur r rs (pick n rs) e (pick-Picked cur n rs h)

AllParts-append :
    (cur : Option Module) (a b : List Part)
    → AllParts cur a
    → AllParts cur b
    → AllParts cur (a ++ b)
AllParts-append cur [] b h k = k
AllParts-append cur (part ∷ a) b (e, h) k = (e, AllParts-append cur a b h k)

AllOwn-append :
    (cur : Option Module) (a b : List Module) → AllOwn cur a → AllOwn cur b → AllOwn cur (a ++ b)
AllOwn-append cur [] b h k = k
AllOwn-append cur (m ∷ a) b (e, h) k = (e, AllOwn-append cur a b h k)

-- The status of the mentor comes into its panel.
mentor_came-Consistent :
    (m : Module) (rest : List Request) (p : Page)
    → Picked p.current_mod p.requests (some (of_mentor m, rest))
    → Consistent p
    → Consistent (record p { requests = rest; mentor_panel = p.mentor_panel ++ m ∷ [] })
mentor_came-Consistent m rest p (own, all, n, k) (a, b, q, r, s, i, j) = (
  a,
  all,
  q,
  r,
  AllOwn-append p.current_mod p.mentor_panel (m ∷ []) s (own, tt),
  omega (arith, n, i),
  omega (arith, k, j, length-append p.mentor_panel (m ∷ [])),
)

came-Consistent :
    (r : Request) (rest : List Request) (p : Page)
    → Picked p.current_mod p.requests (some (r, rest))
    → Consistent p
    → Consistent (came r (record p { requests = rest }))
unfolding came lecture_came
came-Consistent (of_lecture m) rest p (own, all, n, k) (a, b, q, r, s, i, j) =
    switch_tab-Consistent (initial_tab m) m _ own (
      AllParts-append p.current_mod p.lecture_panel (text m ∷ []) a (own, tt),
      all,
      q,
      r,
      s,
      omega (arith, n, i, length-append p.lecture_panel (text m ∷ [])),
      omega (arith, k, j),
    )
came-Consistent (of_quiz m) rest p (own, all, n, k) (a, b, q, r, s, i, j) =
    (a, all, own, r, s, omega (arith, n, i), omega (arith, k, j))
came-Consistent (of_mentor m) rest p picked c = mentor_came-Consistent m rest p picked c

failed-Consistent :
    (r : Request) (rest : List Request) (p : Page)
    → Picked p.current_mod p.requests (some (r, rest))
    → Consistent p
    → Consistent (failed r (record p { requests = rest }))
unfolding failed
failed-Consistent (of_lecture m) rest p (own, all, n, k) (a, b, q, r, s, i, j) =
    (a, all, q, r, s, omega (arith, n, i), omega (arith, k, j))
failed-Consistent (of_quiz m) rest p (own, all, n, k) (a, b, q, r, s, i, j) =
    (a, all, tt, r, s, omega (arith, n, i), omega (arith, k, j))
failed-Consistent (of_mentor m) rest p picked c = mentor_came-Consistent m rest p picked c

-- The answer to the request that was picked, in one way or the other.
Picked-Consistent :
    (answer : Request → Page → Page) (picked : Option (Request × List Request)) (p : Page)
    → ((r : Request) (rest : List Request)
        → Picked p.current_mod p.requests (some (r, rest))
        → Consistent p
        → Consistent (answer r (record p { requests = rest })))
    → Picked p.current_mod p.requests picked
    → Consistent p
    → Consistent
        (elim picked [ none ↦ p | some (r, rest) ↦ answer r (record p { requests = rest }) ])
Picked-Consistent answer none p keeps h c = c
Picked-Consistent answer (some (r, rest)) p keeps h c = keeps r rest h c

step-Consistent : (e : Event) (p : Page) → Waits e p → Consistent p → Consistent (step e p)
unfolding step
step-Consistent (choose m) p w c = load_module-Consistent m p w
step-Consistent (comes n) p w (a, b, c, d, e, f, g) =
    Picked-Consistent came (pick n p.requests) p (λ r rest. came-Consistent r rest p)
      (pick-Picked p.current_mod n p.requests b) (a, b, c, d, e, f, g)
step-Consistent (fails n) p w (a, b, c, d, e, f, g) =
    Picked-Consistent failed (pick n p.requests) p (λ r rest. failed-Consistent r rest p)
      (pick-Picked p.current_mod n p.requests b) (a, b, c, d, e, f, g)
step-Consistent (click t) p w c = click-Consistent p.current_mod t p refl c
step-Consistent go_to_exercise p w (a, b, q, c, d, e, f) =
    go_to_exercise-Consistent p.quiz_panel p q (a, b, q, c, d, e, f)
step-Consistent (reset confirmed) p w (a, b, q, c, d, e, f) =
    reset-Consistent confirmed p.quiz_panel p q (a, b, q, c, d, e, f)

run_from-Consistent :
    (es : List Event) (p : Page) → Calm es p → Consistent p → Consistent (run es p)
unfolding run
run_from-Consistent [] p h c = c
run_from-Consistent (e ∷ es) p (w, h) c =
    run_from-Consistent es (step e p) h (step-Consistent e p w c)

-- If no module is chosen while a lecture, a quiz or the status of the mentor is waited for, then all that the panels
-- show and wait for is of the current module, and its lecture and its mentor are there once at most, whatever comes,
-- fails or is clicked on.
pub run-Consistent : (es : List Event) → Calm es start → Consistent (run es start)
run-Consistent es h = run_from-Consistent es start h (tt, tt, tt, tt, tt, omega arith, omega arith)

-- If a module with a lecture is chosen while that of another is waited for, the page shows both lectures, in the
-- order in which they come, though only the second module is the current one.
pub run-both :
    (m n : Module) (p : Page)
    → m.ready ≡ true
    → m.file ≡ true
    → n.ready ≡ true
    → n.file ≡ true
    → p.requests ≡ []
    → let first = run (choose m ∷ choose n ∷ comes 0 ∷ comes 0 ∷ []) p in
      let second = run (choose m ∷ choose n ∷ comes 1 ∷ comes 0 ∷ []) p in
      (first.lecture_panel ≡ text m ∷ text n ∷ [])
      × (first.current_mod ≡ some n)
      × (second.lecture_panel ≡ text n ∷ text m ∷ [])
      × (second.current_mod ≡ some n)
unfolding run step load_module lecture_came switch_tab came
run-both m n p a b c d e = simp (a, b, c, d, e) (refl, refl, refl, refl)
