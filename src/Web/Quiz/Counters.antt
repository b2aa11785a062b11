-- ===== src/Web/Quiz/Counters.antt =====
-- web/quiz.js: the numbers of questions done that the page shows.
use cppcourse.Base.{ℕ, ◌≡◌, refl, sym, ap, ◌∙◌, arith, ◌+◌, zero, List, [], ◌∷◌, ◌++◌, Option, map}
use cppcourse.Web.Practice.{Progress}
use cppcourse.Web.Quiz.{
  Quiz, quiz_sections, all_questions, done, Window, quiz_load_progress, refresh_quiz_counters,
  render_quiz_panel, on_done, Event, step, run, open_quiz,
}
use cppcourse.Web.Quiz.Steps.{Change, same, moved, recorded, cleared, step-Change}

-- The page shows what is stored.
abbrev Counted : List ℕ → Quiz → Window → Type 0
Counted m quiz w =
    (w.page.counter
      ≡ done m (quiz_load_progress w.storage) (all_questions (quiz_sections zero quiz)))
    × (w.page.level_counts ≡ map (done m (quiz_load_progress w.storage)) (quiz_sections zero quiz))

Change-Counted :
    (m : List ℕ) (quiz : Quiz) (e : Event) (w v : Window)
    → Change m quiz e w v
    → Counted m quiz w
    → Counted m quiz v
unfolding on_done refresh_quiz_counters render_quiz_panel
Change-Counted m quiz e w v same h = h
Change-Counted m quiz e w v (moved si qi x at) h = h
Change-Counted m quiz e w v (recorded si qi x at) h = (refl, refl)
Change-Counted m quiz e w v (cleared at) h = (refl, refl)

run-Counted :
    (m : List ℕ) (quiz : Quiz) (es : List Event) (w : Window)
    → Counted m quiz w
    → Counted m quiz (run m quiz es w)
unfolding run
run-Counted m quiz [] w h = h
run-Counted m quiz (e ∷ es) w h =
    run-Counted m quiz es (step m quiz e w) (Change-Counted m quiz e w _ (step-Change m quiz e w) h)

abbrev pub sum : List ℕ → ℕ
sum [] = zero
sum (x ∷ xs) = x + sum xs

done-append :
    (m : List ℕ) (prog : Progress) (a b : List (List ℕ))
    → done m prog (a ++ b) ≡ done m prog a + done m prog b
done-append m prog [] b = omega arith
done-append m prog (q ∷ a) b = ground (arith, done-append m prog a b)

done-sections :
    (m : List ℕ) (prog : Progress) (ss : List (List (List ℕ)))
    → done m prog (all_questions ss) ≡ sum (map (done m prog) ss)
done-sections m prog [] = refl
done-sections m prog (s ∷ ss) =
    done-append m prog s (all_questions ss) ∙ ap (λ n. done m prog s + n) (done-sections m prog ss)

-- Whatever the reader does with the quiz after it was opened, the page shows the number of its questions that are
-- recorded in the storage, and that number is the sum of those shown at the levels, each of which is the number of
-- the level's questions that are recorded.
pub run-counters :
    (m : List ℕ) (quiz : Quiz) (s : Option Progress) (es : List Event)
    → let w = run m quiz es (open_quiz m quiz s) in
      (w.page.counter
        ≡ done m (quiz_load_progress w.storage) (all_questions (quiz_sections zero quiz)))
      × (w.page.level_counts
          ≡ map (done m (quiz_load_progress w.storage)) (quiz_sections zero quiz))
      × (w.page.counter ≡ sum w.page.level_counts)
unfolding render_quiz_panel
run-counters m quiz s es =
    let (all, levels) = run-Counted m quiz es (open_quiz m quiz s) (refl, refl) in
    (all, levels, all ∙ done-sections m _ (quiz_sections zero quiz) ∙ sym (ap sum levels))
