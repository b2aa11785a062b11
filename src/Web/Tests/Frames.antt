-- ===== src/Web/Tests/Frames.antt =====
-- web/app.js: modules that are chosen one after the other, and at once.
use cppcourse.Base.{◌≡◌, refl, true, false, List, [], ◌∷◌, some}
use cppcourse.Base.Text.{codes}
use cppcourse.Web.Frame.{
  quiz, mentor, Module, Event, text, start, choose, comes, fails, click, go_to_exercise, reset,
  step, run, load_module, lecture_came, switch_tab, came, failed,
}
use cppcourse.Web.Frame.Loads.{Consistent}
use cppcourse.Web.Frame.Orders.{run-Consistent, run-both}

abbrev f1 : Module
f1 = record { id = codes "f1"; ready = true; file = true; quiz = true; exercises = some 2 }

abbrev f2 : Module
f2 = record { id = codes "f2"; ready = true; file = true; quiz = false; exercises = some 1 }

abbrev events : List Event
events =
    choose f1
    ∷ click quiz
    ∷ comes 1
    ∷ comes 0
    ∷ go_to_exercise
    ∷ reset true
    ∷ comes 0
    ∷ choose f2
    ∷ click mentor
    ∷ comes 1
    ∷ fails 0
    ∷ []

run-Consistent_example : Consistent (run events start)
unfolding step load_module lecture_came switch_tab came failed
run-Consistent_example =
    run-Consistent events (refl, (tt, (tt, (tt, (tt, (tt, (tt, (refl, (tt, (tt, (tt, tt)))))))))))

run-both_example :
    let first = run (choose f1 ∷ choose f2 ∷ comes 0 ∷ comes 0 ∷ []) start in
    let second = run (choose f1 ∷ choose f2 ∷ comes 1 ∷ comes 0 ∷ []) start in
    (first.lecture_panel ≡ text f1 ∷ text f2 ∷ [])
    × (first.current_mod ≡ some f2)
    × (second.lecture_panel ≡ text f2 ∷ text f1 ∷ [])
    × (second.current_mod ≡ some f2)
run-both_example = run-both f1 f2 start refl refl refl refl refl
