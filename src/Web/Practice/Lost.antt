-- ===== src/Web/Practice/Lost.antt =====
-- web/editor.js: two pages, in two windows, that keep what has been passed in one storage.
use cppcourse.Base.{ℕ, ◌≡◌, refl, true, List, Option, none, some, ◌||◌}
use cppcourse.Base.Int.{pos}
use cppcourse.Base.Strings.{same_text, same_text_refl}
use cppcourse.Server.Runner.{Result, nothing}
use cppcourse.Web.Practice.{Progress, has, ex_load_progress, Panel, display_result}
use cppcourse.Web.Practice.Marks.{has-mark}

-- The result of a program that returns 0.
abbrev pub success : Result
success = record nothing { exit_code = some (pos 0); passed = some true }

-- A panel that is built now, in a browser that takes all that is stored.
abbrev pub open_panel : Option Progress → Panel
open_panel s = record {
  prog = ex_load_progress s;
  storage = s;
  takes = λ prog. true;
  header = none;
}

-- Another window has stored `s` meanwhile.
abbrev pub seen : Option Progress → Panel → Panel
seen s p = record p { storage = s }

-- Of two exercises that are passed in two windows which were both opened before, the one passed first is not
-- kept, though both are stored, unless it was stored already: the window that stores last has not read what the other stored.
pub display_result-lost :
    (s : Option Progress) (j k : List ℕ)
    → let first = display_result success j (open_panel s) in
      let second = display_result success k (seen first.storage (open_panel s)) in
      (has j (ex_load_progress first.storage) ≡ true)
      × (has j (ex_load_progress second.storage) ≡ (same_text j k || has j (ex_load_progress s)))
unfolding display_result ex_load_progress
display_result-lost s j k = (
  rw (has-mark j j (ex_load_progress s), same_text_refl j) refl,
  has-mark j k (ex_load_progress s),
)
