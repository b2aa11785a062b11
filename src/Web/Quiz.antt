-- ===== src/Web/Quiz.antt =====
-- web/quiz.js: the quiz of a module, and the answers that count, which are kept in `localStorage`.
pub mod Ids
pub mod Steps
pub mod Answers
pub mod Counters
pub mod Windows
pub mod Reset
use cppcourse.Base.{
  ℕ, zero, suc, ◌==◌, ltb, get_elem?, ◌&&◌, Bool, true, false, List, [], ◌∷◌, ◌++◌, Option, none,
  some, if◌then◌else◌, map,
}
use cppcourse.Base.Text.{codes, decimal, starts_with}
use cppcourse.Web.Practice.{Progress, has, mark}

unfoldable pub quiz_load_progress : Option Progress → Progress
quiz_load_progress none = []
quiz_load_progress (some p) = p

abbrev without_prefix : List ℕ → Progress → Progress
without_prefix prefix [] = []
without_prefix prefix (k ∷ prog) =
    let rest = without_prefix prefix prog in if starts_with k prefix then rest else k ∷ rest

unfoldable pub quiz_reset_module : List ℕ → Option Progress → Option Progress
quiz_reset_module module_id s =
    some (without_prefix (module_id ++ codes ".") (quiz_load_progress s))

-- A choice has the number of its options and the right one of them.
pub data Question : Type 0 where
  mcq : ℕ → ℕ → Question
  self_grade exercise : Question

-- The questions of each level.
abbrev pub Quiz : Type 0
Quiz = List (List Question)

-- `"s" + si + "q" + qi`
unfoldable pub question_id : ℕ → ℕ → List ℕ
question_id si qi = codes "s" ++ (decimal si ++ (codes "q" ++ decimal qi))

abbrev pub key : List ℕ → ℕ → ℕ → List ℕ
key module_id si qi = module_id ++ (codes "." ++ question_id si qi)

abbrev numbered : ℕ → ℕ → List Question → List (List ℕ)
numbered si qi [] = []
numbered si qi (q ∷ qs) = question_id si qi ∷ numbered si (suc qi) qs

-- The ids of the questions of each section, from the section with the number `si` on.
abbrev pub quiz_sections : ℕ → Quiz → List (List (List ℕ))
quiz_sections si [] = []
quiz_sections si (qs ∷ quiz) = numbered si zero qs ∷ quiz_sections (suc si) quiz

abbrev pub all_questions : List (List (List ℕ)) → List (List ℕ)
all_questions [] = []
all_questions (s ∷ ss) = s ++ all_questions ss

-- Of these questions, the number of those that are recorded.
abbrev pub done : List ℕ → Progress → List (List ℕ) → ℕ
done module_id prog [] = zero
done module_id prog (q ∷ qs) =
    let rest = done module_id prog qs in
    if has (module_id ++ (codes "." ++ q)) prog then suc rest else rest

-- A question on the page: `closed` if it was recorded when the page was built, `fresh`, `shown` with the reference
-- answer, or `answered`.
pub data Widget : Type 0 where
  closed fresh shown answered : Widget

-- The page of a quiz, with the numbers that it shows: all questions done, and those of each level.
pub record Page : Type 0 where
  pub widgets : ℕ → ℕ → Widget
  pub counter : ℕ
  pub level_counts : List ℕ

pub record Window : Type 0 where
  pub storage : Option Progress
  pub page : Page

unfoldable pub refresh_quiz_counters : List ℕ → Quiz → Option Progress → Page → Page
refresh_quiz_counters module_id quiz s p =
    let prog = quiz_load_progress s in
    let sections = quiz_sections zero quiz in
    record p {
      counter = done module_id prog (all_questions sections);
      level_counts = map (done module_id prog) sections;
    }

unfoldable pub render_quiz_panel : List ℕ → Quiz → Option Progress → Page
render_quiz_panel module_id quiz s =
    let prog = quiz_load_progress s in
    let sections = quiz_sections zero quiz in
    record {
      widgets = λ si qi. if has (key module_id si qi) prog then closed else fresh;
      counter = done module_id prog (all_questions sections);
      level_counts = map (done module_id prog) sections;
    }

abbrev pub set_widget : ℕ → ℕ → Widget → Page → Page
set_widget si qi w p = record p { widgets = λ i j. if i == si && j == qi then w else p.widgets i j }

-- What `renderQuizPanel` gives each question to call when it is done.
unfoldable pub on_done : List ℕ → Quiz → ℕ → ℕ → Window → Window
on_done module_id quiz si qi w =
    let p2 = some (mark (key module_id si qi) (quiz_load_progress w.storage)) in
    record { storage = p2; page = refresh_quiz_counters module_id quiz p2 w.page }

-- A click on an option, on "show the reference answer", on the two grades, or on "reset" with the answer to the
-- question whether to do so.
pub data Event : Type 0 where
  click : ℕ → ℕ → ℕ → Event
  show_answer grade_yes grade_no : ℕ → ℕ → Event
  reset : Bool → Event

abbrev pub question : Quiz → ℕ → ℕ → Option Question
question quiz si qi = elim (get_elem? quiz si) [ none ↦ none | some qs ↦ get_elem? qs qi ]

-- The listener of an option of a choice: only the first click on one counts.
abbrev pub click_option : List ℕ → Quiz → ℕ → ℕ → ℕ → Bool → Widget → Window → Window
click_option module_id quiz si qi idx correct closed w = w
click_option module_id quiz si qi idx correct answered w = w
click_option module_id quiz si qi idx correct fresh w =
    let now = record w { page = set_widget si qi answered w.page } in
    if correct then on_done module_id quiz si qi now else now
click_option module_id quiz si qi idx correct shown w =
    let now = record w { page = set_widget si qi answered w.page } in
    if correct then on_done module_id quiz si qi now else now

-- The listener of "show the reference answer", which hides its button.
abbrev pub click_show : ℕ → ℕ → Widget → Window → Window
click_show si qi fresh w = record w { page = set_widget si qi shown w.page }
click_show si qi closed w = w
click_show si qi shown w = w
click_show si qi answered w = w

-- The listeners of the grades, whose buttons are there from then until a grade is given.
abbrev pub click_grade : List ℕ → Quiz → ℕ → ℕ → Bool → Widget → Window → Window
click_grade module_id quiz si qi good closed w = w
click_grade module_id quiz si qi good fresh w = w
click_grade module_id quiz si qi good answered w = w
click_grade module_id quiz si qi good shown w =
    let now = record w { page = set_widget si qi answered w.page } in
    if good then on_done module_id quiz si qi now else now

-- An event at a question of this kind; there are no buttons but those of the kind.
abbrev pub at_question : List ℕ → Quiz → Option Question → Event → Window → Window
at_question module_id quiz (some (mcq options answer)) (click si qi idx) w =
    if ltb idx options
    then click_option module_id quiz si qi idx (idx == answer) (w.page.widgets si qi) w
    else w
at_question module_id quiz (some self_grade) (show_answer si qi) w =
    click_show si qi (w.page.widgets si qi) w
at_question module_id quiz (some self_grade) (grade_yes si qi) w =
    click_grade module_id quiz si qi true (w.page.widgets si qi) w
at_question module_id quiz (some self_grade) (grade_no si qi) w =
    click_grade module_id quiz si qi false (w.page.widgets si qi) w
at_question module_id quiz q e w = w

abbrev pub reset_quiz : List ℕ → Quiz → Window → Window
reset_quiz module_id quiz w =
    let s = quiz_reset_module module_id w.storage in
    record { storage = s; page = render_quiz_panel module_id quiz s }

unfoldable pub step : List ℕ → Quiz → Event → Window → Window
step module_id quiz (click si qi idx) w =
    at_question module_id quiz (question quiz si qi) (click si qi idx) w
step module_id quiz (show_answer si qi) w =
    at_question module_id quiz (question quiz si qi) (show_answer si qi) w
step module_id quiz (grade_yes si qi) w =
    at_question module_id quiz (question quiz si qi) (grade_yes si qi) w
step module_id quiz (grade_no si qi) w =
    at_question module_id quiz (question quiz si qi) (grade_no si qi) w
step module_id quiz (reset confirmed) w = if confirmed then reset_quiz module_id quiz w else w

unfoldable pub run : List ℕ → Quiz → List Event → Window → Window
run module_id quiz [] w = w
run module_id quiz (e ∷ es) w = run module_id quiz es (step module_id quiz e w)

abbrev pub open_quiz : List ℕ → Quiz → Option Progress → Window
open_quiz module_id quiz s = record { storage = s; page = render_quiz_panel module_id quiz s }
