-- ===== src/Web/Quiz/Steps.antt =====
-- web/quiz.js: what one event changes.
use cppcourse.Base.{
  ℕ, ◌≡◌, refl, Bool, true, false, List, ◌==◌, ltb, Bool-cases, inl, inr, Option, none, some,
}
use cppcourse.Web.Quiz.{
  Quiz, Question, mcq, self_grade, exercise, Widget, closed, fresh, shown, answered, Window,
  on_done, set_widget, Event, click, show_answer, grade_yes, grade_no, reset, click_option,
  click_show, click_grade, at_question, question, reset_quiz, step,
}

-- The event is at this question.
abbrev pub At : ℕ → ℕ → Event → Type 0
At si qi (click i j idx) = (i ≡ si) × (j ≡ qi)
At si qi (show_answer i j) = (i ≡ si) × (j ≡ qi)
At si qi (grade_yes i j) = (i ≡ si) × (j ≡ qi)
At si qi (grade_no i j) = (i ≡ si) × (j ≡ qi)
At si qi (reset confirmed) = ⊥

-- What an event makes of a window: nothing, another state of its question, the record of its question too, or a new
-- page without records.
pub data Change (m : List ℕ) (quiz : Quiz) (e : Event) (w : Window) : Window → Type 0 where
  same : Change m quiz e w w
  moved :
      (si qi : ℕ) (v : Widget)
      → At si qi e
      → Change m quiz e w (record w { page = set_widget si qi v w.page })
  recorded :
      (si qi : ℕ) (v : Widget)
      → At si qi e
      → Change m quiz e w (on_done m quiz si qi (record w { page = set_widget si qi v w.page }))
  cleared : e ≡ reset true → Change m quiz e w (reset_quiz m quiz w)

module _ (m : List ℕ) (quiz : Quiz) where
  option-Change :
      (si qi idx : ℕ) (b : Bool) (v : Widget) (w : Window)
      → Change m quiz (click si qi idx) w (click_option m quiz si qi idx b v w)
  option-Change si qi idx b closed w = same
  option-Change si qi idx b answered w = same
  option-Change si qi idx false fresh w = moved si qi answered (refl, refl)
  option-Change si qi idx true fresh w = recorded si qi answered (refl, refl)
  option-Change si qi idx false shown w = moved si qi answered (refl, refl)
  option-Change si qi idx true shown w = recorded si qi answered (refl, refl)

  grade-Change :
      (e : Event) (si qi : ℕ) (b : Bool) (v : Widget) (w : Window)
      → At si qi e
      → Change m quiz e w (click_grade m quiz si qi b v w)
  grade-Change e si qi b closed w h = same
  grade-Change e si qi b answered w h = same
  grade-Change e si qi b fresh w h = same
  grade-Change e si qi false shown w h = moved si qi answered h
  grade-Change e si qi true shown w h = recorded si qi answered h

  show-Change :
      (si qi : ℕ) (v : Widget) (w : Window)
      → Change m quiz (show_answer si qi) w (click_show si qi v w)
  show-Change si qi closed w = same
  show-Change si qi fresh w = moved si qi shown (refl, refl)
  show-Change si qi shown w = same
  show-Change si qi answered w = same

  at_question-Change :
      (q : Option Question) (e : Event) (w : Window) → Change m quiz e w (at_question m quiz q e w)
  at_question-Change none (click si qi idx) w = same
  at_question-Change none (show_answer si qi) w = same
  at_question-Change none (grade_yes si qi) w = same
  at_question-Change none (grade_no si qi) w = same
  at_question-Change none (reset b) w = same
  at_question-Change (some exercise) (click si qi idx) w = same
  at_question-Change (some exercise) (show_answer si qi) w = same
  at_question-Change (some exercise) (grade_yes si qi) w = same
  at_question-Change (some exercise) (grade_no si qi) w = same
  at_question-Change (some exercise) (reset b) w = same
  at_question-Change (some self_grade) (click si qi idx) w = same
  at_question-Change (some self_grade) (show_answer si qi) w =
      show-Change si qi (w.page.widgets si qi) w
  at_question-Change (some self_grade) (grade_yes si qi) w =
      grade-Change (grade_yes si qi) si qi true (w.page.widgets si qi) w (refl, refl)
  at_question-Change (some self_grade) (grade_no si qi) w =
      grade-Change (grade_no si qi) si qi false (w.page.widgets si qi) w (refl, refl)
  at_question-Change (some self_grade) (reset b) w = same
  at_question-Change (some (mcq n a)) (click si qi idx) w = elim (Bool-cases (ltb idx n)) [
    | inl e ↦ rw e (option-Change si qi idx (idx == a) (w.page.widgets si qi) w)
    | inr e ↦ rw e same
  ]
  at_question-Change (some (mcq n a)) (show_answer si qi) w = same
  at_question-Change (some (mcq n a)) (grade_yes si qi) w = same
  at_question-Change (some (mcq n a)) (grade_no si qi) w = same
  at_question-Change (some (mcq n a)) (reset b) w = same

  pub step-Change : (e : Event) (w : Window) → Change m quiz e w (step m quiz e w)
  unfolding step
  step-Change (click si qi idx) w = at_question-Change (question quiz si qi) (click si qi idx) w
  step-Change (show_answer si qi) w = at_question-Change (question quiz si qi) (show_answer si qi) w
  step-Change (grade_yes si qi) w = at_question-Change (question quiz si qi) (grade_yes si qi) w
  step-Change (grade_no si qi) w = at_question-Change (question quiz si qi) (grade_no si qi) w
  step-Change (reset false) w = same
  step-Change (reset true) w = cleared refl
