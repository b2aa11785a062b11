-- ===== src/Web/Tests/Quizzes.antt =====
-- web/quiz.js: a quiz in use.
use cppcourse.Base.{
  zero, suc, ◌≡◌, refl, arith, true, false, not, ◌&&◌, List, [], ◌∷◌, Option, none, some, map,
}
use cppcourse.Base.Text.{codes, starts_with}
use cppcourse.Base.Strings.{same_text}
use cppcourse.Web.Practice.{Progress, has}
use cppcourse.Web.Quiz.{
  mcq, self_grade, exercise, Quiz, key, quiz_sections, all_questions, done, quiz_load_progress,
  quiz_reset_module, Event, click, show_answer, grade_yes, reset, run, open_quiz, render_quiz_panel,
}
use cppcourse.Web.Quiz.Answers.{run-first_of}
use cppcourse.Web.Quiz.Counters.{sum, run-counters}
use cppcourse.Web.Quiz.Reset.{quiz_reset_module-key}
use cppcourse.Web.Quiz.Windows.{Browser, Tabs, run_windows, run_windows-keeps}

abbrev two_levels : Quiz
two_levels = (mcq 3 1 ∷ mcq 2 0 ∷ []) ∷ (self_grade ∷ exercise ∷ []) ∷ []

-- A wrong and a right answer to one question, a right one to the next, and a grade.
abbrev some_events : List Event
some_events = click 0 0 2 ∷ click 0 0 1 ∷ click 0 1 0 ∷ show_answer 1 0 ∷ grade_yes 1 0 ∷ []

run-first_of_example :
    has (key (codes "f1") 0 0) (
      quiz_load_progress
        (run (codes "f1") two_levels some_events (open_quiz (codes "f1") two_levels none)).storage)
    ≡ false
unfolding quiz_load_progress
run-first_of_example = run-first_of (codes "f1") two_levels none 0 0 3 1 some_events refl refl

run-counters_example :
    let w = run (codes "f1") two_levels some_events (open_quiz (codes "f1") two_levels none) in
    (w.page.counter
      ≡ done
          (codes "f1")
          (quiz_load_progress w.storage)
          (all_questions (quiz_sections zero two_levels)))
    × (w.page.level_counts
        ≡ map (done (codes "f1") (quiz_load_progress w.storage)) (quiz_sections zero two_levels))
    × (w.page.counter ≡ sum w.page.level_counts)
run-counters_example = run-counters (codes "f1") two_levels none some_events

-- One window with the quiz of f1, the others with that of f2.
abbrev tabs : Tabs
tabs zero = record { module_id = codes "f1"; quiz = two_levels }
tabs (suc n) = record { module_id = codes "f2"; quiz = two_levels }

abbrev stored : Option Progress
stored = some (codes "f1.s0q0" ∷ [])

abbrev browser : Browser
browser = record { storage = stored; pages = λ n. render_quiz_panel (codes "f1") two_levels stored }

run_windows-keeps_example :
    has (codes "f1.s0q0") (
      quiz_load_progress
        (run_windows tabs ((1, reset true) ∷ (0, click 0 1 0) ∷ []) browser).storage)
    ≡ true
unfolding quiz_load_progress starts_with
run_windows-keeps_example =
    run_windows-keeps tabs (codes "f1.s0q0") ((1, reset true) ∷ (0, click 0 1 0) ∷ []) browser
      ((λ e. refl), ((λ e. cc), tt)) refl

quiz_reset_module-key_example :
    has (key (codes "f1") 0 0) (quiz_load_progress (quiz_reset_module (codes "f2") stored)) ≡ (
      not (same_text (codes "f1") (codes "f2"))
      && has (key (codes "f1") 0 0) (quiz_load_progress stored))
quiz_reset_module-key_example =
    quiz_reset_module-key (codes "f2") (codes "f1") 0 0 stored (omega arith) (omega arith)
