-- ===== src/Web/Frame/Clicks.antt =====
-- web/app.js and web/quiz.js: the clicks on a tab, on the link to an exercise, and on the reset of the quiz.
use cppcourse.Base.{
  ℕ, false, ◌≡◌, true, ◌&&◌, not, Option, none, some, if◌then◌else◌, Bool, Bool-cases, inl, inr,
}
use cppcourse.Web.Frame.{
  Tab, practice, Module, Page, switch_tab, available, is_written, go_to, render_practice,
  has_exercises, render_quiz,
}
use cppcourse.Web.Frame.Loads.{
  Own, render_practice-Consistent, render_quiz-Consistent, Consistent, switch_tab-Consistent,
}

pub click-Consistent :
    (cur : Option Module) (t : Tab) (p : Page)
    → p.current_mod ≡ cur
    → Consistent p
    → Consistent (elim cur [
      | none ↦ p
      | some m ↦ if is_written m && available m t then switch_tab t m p else p
    ])
click-Consistent none t p e c = c
click-Consistent (some m) t p e c = elim (Bool-cases (is_written m && available m t)) [
  | inl w ↦ rw w (switch_tab-Consistent t m p e c)
  | inr w ↦ rw w c
]

practice_tab_mod :
    (m : Module) (p : Page)
    → p.current_mod ≡ some m
    → (switch_tab practice m (record p { practice_loaded = false })).current_mod ≡ some m
unfolding switch_tab
practice_tab_mod m p e = elim (Bool-cases (has_exercises m && not false)) [
  | inl w ↦ rw w e
  | inr w ↦ rw w e
]

again-Consistent :
    (exercises : Option ℕ) (m : Module) (p : Page)
    → p.current_mod ≡ some m
    → Consistent p
    → Consistent (elim exercises [ none ↦ p | some n ↦ render_practice m p ])
again-Consistent none m p e c = c
again-Consistent (some n) m p e c = render_practice-Consistent m p e c

pub go_to_exercise-Consistent :
    (shown : Option Module) (p : Page)
    → Own p.current_mod shown
    → Consistent p
    → Consistent (elim shown [ none ↦ p | some m ↦ go_to m p ])
go_to_exercise-Consistent none p e c = c
go_to_exercise-Consistent (some m) p e c =
    let q = record p { practice_loaded = false } in
    again-Consistent m.exercises m (switch_tab practice m q) (practice_tab_mod m p e)
      (switch_tab-Consistent practice m q e c)

pub reset-Consistent :
    (confirmed : Bool) (shown : Option Module) (p : Page)
    → Own p.current_mod shown
    → Consistent p
    → Consistent (elim shown [ none ↦ p | some m ↦ if confirmed then render_quiz m p else p ])
reset-Consistent confirmed none p e c = c
reset-Consistent true (some m) p e c = render_quiz-Consistent m p e c
reset-Consistent false (some m) p e c = c
