-- ===== src/Web/Frame/Loads.antt =====
-- web/app.js: a page that shows one module, and the loading of another.
use cppcourse.Base.{
  ℕ, ◌&&◌, not, if◌then◌else◌, ◌+◌, ◌≤◌, ◌≡◌, refl, arith, Bool, true, false, List, [], ◌∷◌, ◌++◌,
  length, Option, none, some, Bool-cases, inl, inr,
}
use cppcourse.Web.Frame.{
  Tab, lecture, quiz, practice, mentor, Module, Part, text, placeholder, Page, Request, of_lecture,
  of_quiz, of_mentor, render_quiz, has_exercises, render_practice, render_mentor, switch_tab,
  initial_tab, is_written, reset_panels, load_module,
}

abbrev module_of : Part → Module
module_of (text m) = m
module_of (placeholder m) = m

abbrev pub AllParts : Option Module → List Part → Type 0
AllParts cur [] = Unit {0}
AllParts cur (part ∷ ps) = (cur ≡ some (module_of part)) × AllParts cur ps

abbrev pub owner : Request → Module
owner (of_lecture m) = m
owner (of_quiz m) = m
owner (of_mentor m) = m

abbrev pub AllRequests : Option Module → List Request → Type 0
AllRequests cur [] = Unit {0}
AllRequests cur (r ∷ rs) = (cur ≡ some (owner r)) × AllRequests cur rs

abbrev pub AllOwn : Option Module → List Module → Type 0
AllOwn cur [] = Unit {0}
AllOwn cur (m ∷ ms) = (cur ≡ some m) × AllOwn cur ms

abbrev pub Own : Option Module → Option Module → Type 0
Own cur none = Unit {0}
Own cur (some m) = cur ≡ some m

abbrev pub is_lecture : Request → ℕ
is_lecture (of_lecture m) = 1
is_lecture (of_quiz m) = 0
is_lecture (of_mentor m) = 0

abbrev pub is_mentor : Request → ℕ
is_mentor (of_lecture m) = 0
is_mentor (of_quiz m) = 0
is_mentor (of_mentor m) = 1

abbrev pub sum_of : (Request → ℕ) → List Request → ℕ
sum_of f [] = 0
sum_of f (r ∷ rs) = f r + sum_of f rs

abbrev pub at_most : Bool → ℕ
at_most loaded = if loaded then 1 else 0

-- All that the page shows and waits for is of the current module, and its lecture and its mentor are there once at
-- most.
abbrev pub Consistent : Page → Type 0
Consistent p =
    AllParts p.current_mod p.lecture_panel
    × AllRequests p.current_mod p.requests
    × Own p.current_mod p.quiz_panel
    × Own p.current_mod p.practice_panel
    × AllOwn p.current_mod p.mentor_panel
    × (length p.lecture_panel + sum_of is_lecture p.requests ≤ 1)
    × (length p.mentor_panel + sum_of is_mentor p.requests ≤ at_most p.mentor_loaded)

AllRequests-append :
    (cur : Option Module) (a b : List Request)
    → AllRequests cur a
    → AllRequests cur b
    → AllRequests cur (a ++ b)
AllRequests-append cur [] b h k = k
AllRequests-append cur (r ∷ a) b (e, h) k = (e, AllRequests-append cur a b h k)

sum_of-append : (f : Request → ℕ) (a b : List Request) → sum_of f (a ++ b) ≡ sum_of f a + sum_of f b
sum_of-append f [] b = omega arith
sum_of-append f (r ∷ a) b = omega (arith, sum_of-append f a b)

pub render_quiz-Consistent :
    (m : Module) (p : Page) → p.current_mod ≡ some m → Consistent p → Consistent (render_quiz m p)
render_quiz-Consistent m p e (a, b, q, r, s, n, k) = (
  a,
  AllRequests-append p.current_mod p.requests (of_quiz m ∷ []) b (e, tt),
  tt,
  r,
  s,
  omega (arith, n, sum_of-append is_lecture p.requests (of_quiz m ∷ [])),
  omega (arith, k, sum_of-append is_mentor p.requests (of_quiz m ∷ [])),
)

render_mentor-Consistent :
    (m : Module) (p : Page)
    → p.current_mod ≡ some m
    → p.mentor_loaded ≡ false
    → Consistent p
    → Consistent (render_mentor m p)
render_mentor-Consistent m p e f (a, b, q, r, s, n, k) =
    let none_yet : sum_of is_mentor p.requests ≡ 0 = ground arith in
    (
      a,
      AllRequests-append p.current_mod p.requests (of_mentor m ∷ []) b (e, tt),
      q,
      r,
      tt,
      omega (arith, n, sum_of-append is_lecture p.requests (of_mentor m ∷ [])),
      omega (arith, none_yet, sum_of-append is_mentor p.requests (of_mentor m ∷ [])),
    )

pub render_practice-Consistent :
    (m : Module) (p : Page)
    → p.current_mod ≡ some m
    → Consistent p
    → Consistent (render_practice m p)
render_practice-Consistent m p e (a, b, q, r, s, n, k) = elim (Bool-cases (has_exercises m)) [
  | inl w ↦ rw w (a, b, q, e, s, n, k)
  | inr w ↦ rw w (a, b, q, tt, s, n, k)
]

open_mentor-Consistent :
    (loaded : Bool) (m : Module) (p : Page)
    → p.mentor_loaded ≡ loaded
    → p.current_mod ≡ some m
    → Consistent p
    → let q = record p { current_tab = mentor } in
      Consistent (if loaded then q else render_mentor m q)
open_mentor-Consistent true m p w e h = h
open_mentor-Consistent false m p w e h =
    render_mentor-Consistent m (record p { current_tab = mentor }) e w h

pub switch_tab-Consistent :
    (t : Tab) (m : Module) (p : Page)
    → p.current_mod ≡ some m
    → Consistent p
    → Consistent (switch_tab t m p)
unfolding switch_tab
switch_tab-Consistent lecture m p e h = h
switch_tab-Consistent quiz m p e h = elim (Bool-cases (m.quiz && not p.quiz_loaded)) [
  | inl w ↦ rw w (render_quiz-Consistent m (record p { current_tab = quiz }) e h)
  | inr w ↦ rw w h
]
switch_tab-Consistent practice m p e h =
    elim (Bool-cases (has_exercises m && not p.practice_loaded)) [
      | inl w ↦ rw w (render_practice-Consistent m (record p { current_tab = practice }) e h)
      | inr w ↦ rw w h
    ]
switch_tab-Consistent mentor m p e h = open_mentor-Consistent p.mentor_loaded m p refl e h

-- Choosing a module that has a lecture, and one that has none.
load_module-file :
    (m : Module) (p : Page)
    → is_written m ≡ true
    → m.file ≡ true
    → load_module m p ≡ record (reset_panels m p) {
      current_tab = lecture;
      requests = p.requests ++ of_lecture m ∷ [];
    }
unfolding load_module
load_module-file m p w f = rw (w, f, load_module) refl

load_module-no_file :
    (m : Module) (p : Page)
    → is_written m ≡ true
    → m.file ≡ false
    → load_module m p ≡ switch_tab (initial_tab m) m (reset_panels m p)
unfolding load_module
load_module-no_file m p w f = rw (w, f, load_module) refl

load_module-placeholder :
    (m : Module) (p : Page)
    → is_written m ≡ false
    → load_module m p ≡ record (reset_panels m p) { lecture_panel = placeholder m ∷ [] }
unfolding load_module
load_module-placeholder m p w = rw (w, load_module) refl

pub load_module-Consistent :
    (m : Module) (p : Page) → p.requests ≡ [] → Consistent (load_module m p)
load_module-Consistent m p e = elim (Bool-cases (is_written m)) [
  | inl w ↦ elim (Bool-cases m.file) [
    | inl f ↦
        rw (load_module-file m p w f)
          (tt, rw e (refl, tt), tt, tt, tt, rw e (omega arith), rw e (omega arith))
    | inr f ↦ rw (load_module-no_file m p w f) (
        switch_tab-Consistent (initial_tab m) m (reset_panels m p) refl
          (tt, rw e tt, tt, tt, tt, rw e (omega arith), rw e (omega arith)))
  ]
  | inr w ↦
      rw (load_module-placeholder m p w)
        ((refl, tt), rw e tt, tt, tt, tt, rw e (omega arith), rw e (omega arith))
]
