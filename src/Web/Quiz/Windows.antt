-- ===== src/Web/Quiz/Windows.antt =====
-- web/quiz.js: the quizzes of several windows, which keep their answers in one storage.
use cppcourse.Base.{
  ℕ, ◌≡◌, refl, ◌∙◌, arith, ◌==◌, true, false, List, [], ◌∷◌, Option, ◌++◌, if◌then◌else◌,
}
use cppcourse.Base.Text.{codes, starts_with}
use cppcourse.Web.Practice.{Progress, has}
use cppcourse.Web.Practice.Marks.{has-mark}
use cppcourse.Web.Quiz.{
  Quiz, key, quiz_load_progress, quiz_reset_module, Page, Window, Event, reset, step, on_done,
}
use cppcourse.Web.Quiz.Ids.{has-without_prefix}
use cppcourse.Web.Quiz.Steps.{Change, same, moved, recorded, cleared, step-Change}

-- The windows by their numbers, and the storage.
pub record Browser : Type 0 where
  pub storage : Option Progress
  pub pages : ℕ → Page

-- What a window was opened on.
pub record Tab : Type 0 where
  pub module_id : List ℕ
  pub quiz : Quiz

abbrev pub Tabs : Type 0
Tabs = ℕ → Tab

-- An event in one window.
abbrev pub step_in : Tabs → ℕ → Event → Browser → Browser
step_in tabs n e b =
    let after =
      step (tabs n).module_id (tabs n).quiz e (record { storage = b.storage; page = b.pages n }) in
    record { storage = after.storage; pages = λ k. if k == n then after.page else b.pages k }

unfoldable pub run_windows : Tabs → List (ℕ × Event) → Browser → Browser
run_windows tabs [] b = b
run_windows tabs ((n, e) ∷ es) b = run_windows tabs es (step_in tabs n e b)

-- No reset that is confirmed deletes the key.
abbrev pub Spares : Tabs → List ℕ → List (ℕ × Event) → Type 0
Spares tabs k [] = Unit {0}
Spares tabs k ((n, e) ∷ es) =
    (e ≡ reset true → starts_with k ((tabs n).module_id ++ codes ".") ≡ false) × Spares tabs k es

-- What one event leaves in the storage, of what was there.
Change-keeps :
    (m : List ℕ) (quiz : Quiz) (e : Event) (k : List ℕ) (w v : Window)
    → Change m quiz e w v
    → (e ≡ reset true → starts_with k (m ++ codes ".") ≡ false)
    → has k (quiz_load_progress w.storage) ≡ true
    → has k (quiz_load_progress v.storage) ≡ true
unfolding on_done quiz_reset_module quiz_load_progress
Change-keeps m quiz e k w v same h r = r
Change-keeps m quiz e k w v (moved si qi x at) h r = r
Change-keeps m quiz e k w v (recorded si qi x at) h r =
    has-mark k (key m si qi) (quiz_load_progress w.storage) ∙ ground arith
Change-keeps m quiz e k w v (cleared c) h r =
    has-without_prefix (m ++ codes ".") k (quiz_load_progress w.storage) ∙ rw (h c, r) refl

-- Whatever is done in any windows, in any order, an answer that is recorded stays recorded, unless the quiz is reset
-- whose keys it is among: no window writes back an older state of the storage.
pub run_windows-keeps :
    (tabs : Tabs) (k : List ℕ) (es : List (ℕ × Event)) (b : Browser)
    → Spares tabs k es
    → has k (quiz_load_progress b.storage) ≡ true
    → has k (quiz_load_progress (run_windows tabs es b).storage) ≡ true
unfolding run_windows
run_windows-keeps tabs k [] b h r = r
run_windows-keeps tabs k ((n, e) ∷ es) b (h, hs) r =
    run_windows-keeps tabs k es (step_in tabs n e b) hs (
      Change-keeps (tabs n).module_id (tabs n).quiz e k _ _
        (step-Change (tabs n).module_id (tabs n).quiz e _) h r)
