-- ===== src/Web/Frame.antt =====
-- web/app.js: loading modules and switching between the panels of a module.
pub mod Loads
pub mod Clicks
pub mod Orders
use cppcourse.Base.{
  false, ltb, ℕ, zero, suc, Bool, true, ◌&&◌, ◌||◌, not, List, [], ◌∷◌, ◌++◌, Option, none, some,
  if◌then◌else◌,
}

pub data Tab : Type 0 where
  lecture quiz practice mentor : Tab

-- An entry of the manifest: whether its status is "ready", and what it has; of the exercises, how many, if the
-- entry speaks of them.
pub record Module : Type 0 where
  pub id : List ℕ
  pub ready : Bool
  pub file : Bool
  pub quiz : Bool
  pub exercises : Option ℕ

-- `mod.exercises && mod.exercises.length > 0`
abbrev pub has_exercises : Module → Bool
has_exercises m = elim m.exercises [ none ↦ false | some n ↦ ltb 0 n ]

-- What stands in the panel of the lecture.
pub data Part : Type 0 where
  text placeholder : Module → Part

-- A request whose answer a panel waits for: the lecture, the quiz, or the status of the mentor.
pub data Request : Type 0 where
  of_lecture of_quiz of_mentor : Module → Request

-- The panels by what stands in them, the flags `data-loaded` of the lazy ones, and the requests whose answers have
-- not come.
pub record Page : Type 0 where
  pub current_mod : Option Module
  pub current_tab : Tab
  pub lecture_panel : List Part
  pub quiz_panel : Option Module
  pub quiz_loaded : Bool
  pub practice_panel : Option Module
  pub practice_loaded : Bool
  pub mentor_panel : List Module
  pub mentor_loaded : Bool
  pub requests : List Request

abbrev pub start : Page
start = record {
  current_mod = none;
  current_tab = lecture;
  lecture_panel = [];
  quiz_panel = none;
  quiz_loaded = false;
  practice_panel = none;
  practice_loaded = false;
  mentor_panel = [];
  mentor_loaded = false;
  requests = [];
}

-- `renderQuizPanel` up to its request, `renderPracticePanel`, which builds the list of the exercises without one, or says that there are none,
-- and `renderAIChatPanel` up to its request.
abbrev pub render_quiz : Module → Page → Page
render_quiz m p = record p { quiz_panel = none; requests = p.requests ++ of_quiz m ∷ [] }

abbrev pub render_practice : Module → Page → Page
render_practice m p = record p {
  practice_panel = if has_exercises m then some m else none;
  practice_loaded = true;
}

abbrev pub render_mentor : Module → Page → Page
render_mentor m p = record p {
  mentor_panel = [];
  mentor_loaded = true;
  requests = p.requests ++ of_mentor m ∷ [];
}

unfoldable pub switch_tab : Tab → Module → Page → Page
switch_tab lecture m p = record p { current_tab = lecture }
switch_tab quiz m p =
    let q = record p { current_tab = quiz } in
    if m.quiz && not p.quiz_loaded then record (render_quiz m q) { quiz_loaded = true } else q
switch_tab practice m p =
    let q = record p { current_tab = practice } in
    if has_exercises m && not p.practice_loaded then render_practice m q else q
switch_tab mentor m p =
    let q = record p { current_tab = mentor } in if p.mentor_loaded then q else render_mentor m q

-- The tabs that the toolbar has for a module.
abbrev available : Module → Tab → Bool
available m lecture = m.file
available m quiz = m.quiz
available m practice = has_exercises m
available m mentor = true

abbrev initial_tab : Module → Tab
initial_tab m = if m.file then lecture else if m.quiz then quiz else practice

abbrev is_written : Module → Bool
is_written m = m.ready && (m.file || (m.quiz || has_exercises m))

-- "Reset panels"; the requests go on.
abbrev reset_panels : Module → Page → Page
reset_panels m p = record p {
  current_mod = some m;
  lecture_panel = [];
  quiz_panel = none;
  quiz_loaded = false;
  practice_panel = none;
  practice_loaded = false;
  mentor_panel = [];
  mentor_loaded = false;
}

-- `loadModule` up to the request of the lecture, or whole if there is none.
unfoldable pub load_module : Module → Page → Page
load_module m p =
    let q = reset_panels m p in
    if not (is_written m)
    then record q { lecture_panel = placeholder m ∷ [] }
    else if m.file
    then record q { current_tab = initial_tab m; requests = q.requests ++ of_lecture m ∷ [] }
    else switch_tab (initial_tab m) m q

-- `loadModule` behind the answer.
unfoldable pub lecture_came : Module → Page → Page
lecture_came m p =
    switch_tab (initial_tab m) m (record p { lecture_panel = p.lecture_panel ++ text m ∷ [] })

-- What the answer to a request puts into its panel, which is not asked whose it is now. The status of the mentor
-- and a quiz come also when the request fails, the quiz as a note that there is none.
unfoldable pub came : Request → Page → Page
came (of_lecture m) p = lecture_came m p
came (of_quiz m) p = record p { quiz_panel = some m }
came (of_mentor m) p = record p { mentor_panel = p.mentor_panel ++ m ∷ [] }

unfoldable pub failed : Request → Page → Page
failed (of_lecture m) p = p
failed (of_quiz m) p = record p { quiz_panel = none }
failed (of_mentor m) p = record p { mentor_panel = p.mentor_panel ++ m ∷ [] }

-- One of the requests, and the others.
abbrev pub pick : ℕ → List Request → Option (Request × List Request)
pick n [] = none
pick zero (m ∷ ms) = some (m, ms)
pick (suc n) (m ∷ ms) = elim (pick n ms) [ none ↦ none | some (x, rest) ↦ some (x, m ∷ rest) ]

-- Another module is chosen, the answer to one of the requests comes, or it fails, or a click: on a tab, on the
-- link to an exercise in the quiz, which loads the exercises again, or on the reset of the quiz, with the answer
-- to the question whether to do so.
pub data Event : Type 0 where
  choose : Module → Event
  comes fails : ℕ → Event
  click : Tab → Event
  go_to_exercise : Event
  reset : Bool → Event

-- `window.switchToTab` with the practice: the flag is reset, and the list is built, and built again if the entry
-- speaks of exercises.
abbrev pub go_to : Module → Page → Page
go_to m p =
    let q = switch_tab practice m (record p { practice_loaded = false }) in
    elim m.exercises [ none ↦ q | some n ↦ render_practice m q ]

unfoldable pub step : Event → Page → Page
step (choose m) p = load_module m p
step (comes n) p = elim (pick n p.requests) [
  | none ↦ p
  | some (r, rest) ↦ came r (record p { requests = rest })
]
step (fails n) p = elim (pick n p.requests) [
  | none ↦ p
  | some (r, rest) ↦ failed r (record p { requests = rest })
]
step (click t) p = elim p.current_mod [
  | none ↦ p
  | some m ↦ if is_written m && available m t then switch_tab t m p else p
]
step go_to_exercise p = elim p.quiz_panel [ none ↦ p | some m ↦ go_to m p ]
step (reset confirmed) p = elim p.quiz_panel [
  | none ↦ p
  | some m ↦ if confirmed then render_quiz m p else p
]

unfoldable pub run : List Event → Page → Page
run [] p = p
run (e ∷ es) p = run es (step e p)
