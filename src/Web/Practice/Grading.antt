-- ===== src/Web/Practice/Grading.antt =====
-- web/editor.js and server.py together: when an exercise counts as passed.
use cppcourse.Base.{ℕ, ◌↔◌, ◌≡◌, ◌&&◌, Bool, true, false, List, ◌++◌, none, some, if◌then◌else◌}
use cppcourse.Base.Int.{pos, eqb_ℤ}
use cppcourse.Base.Text.{codes}
use cppcourse.Server.Runner.{Machine, Run, exited, timed_out, raises, language, exercise_dir}
use cppcourse.Web.Practice.{mark, Panel, all_passed}

abbrev ids : List ℕ → List ℕ → List ℕ
ids module_id exercise_id = module_id ++ codes "/" ++ exercise_id

abbrev ends_well : Run → Bool
ends_well (exited code out err) = eqb_ℤ code (pos 0)
ends_well timed_out = false
ends_well raises = false

-- There is a test, the solution compiles, and the program that is built from both returns 0.
abbrev pub passes : Machine → List ℕ → List ℕ → List ℕ → Bool
passes m module_id exercise_id code = elim (language m (exercise_dir m module_id exercise_id)) [
  | none ↦ false
  | some (compiler, test_file) ↦
      ends_well (m.compile compiler code test_file) && ends_well (m.run compiler code test_file)
]

-- The panel `q` follows on `p`: the exercise of this key is kept as passed, or nothing changes and no success
-- is shown; if the browser does not take what is to be stored, it is kept in the panel alone.
abbrev pub Graded : Bool → List ℕ → Panel → Panel → Type 0
Graded good key p q =
    (q.storage ≡ (if good && p.takes (mark key p.prog) then some (mark key p.prog) else p.storage))
    × (q.prog ≡ (if good then mark key p.prog else p.prog))
    × ((q.header ≡ some all_passed) ↔ ((good && p.takes (mark key p.prog)) ≡ true))
