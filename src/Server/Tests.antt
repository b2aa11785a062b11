-- ===== src/Server/Tests.antt =====
-- server.py: requests with ids that are no paths, and with an absolute one.
use cppcourse.Base.{◌≡◌, refl, arith, true, [], ◌∷◌, ◌++◌}
use cppcourse.Base.Int.{pos}
use cppcourse.Base.Text.{codes}
use cppcourse.Base.Strings.{same_text_apart}
use cppcourse.Server.Runner.{exercise_dir, Machine, exited, text, run_exercise, check_qemu_status}
use cppcourse.Server.Paths.{NotFound, BuiltBelow, run_exercise-BuiltBelow, do_post-absolute}
use cppcourse.Server.Routes.{do_post, respond, object}
use cppcourse.Server.Runner.{exercise_dir, script_result}
use cppcourse.Base.{◌⊎◌, some, List, ℕ}

-- A machine that has all files.
abbrev machine : Machine
machine = record {
  root = codes "course" ∷ [];
  exists = λ p. true;
  compile = λ c s t. exited (pos 0) [] [];
  run = λ c s t. exited (pos 1) [] [];
  has_qemu = true;
  run_in_qemu = λ x s t d. exited (pos 0) [] [];
}

abbrev source : List ℕ
source = codes "int x;"

run_exercise-BuiltBelow_example :
    NotFound machine
      (exercise_dir machine (codes "f1") (codes "01"))
      (run_exercise machine (codes "f1") (codes "01") (text source))
    ⊎ BuiltBelow machine source (run_exercise machine (codes "f1") (codes "01") (text source))
run_exercise-BuiltBelow_example =
    run_exercise-BuiltBelow machine (codes "f1") (codes "01") source (omega arith)
      (same_text_apart (codes "f1") (codes "..") refl) (omega arith)
      (same_text_apart (codes "01") (codes "..") refl)

do_post-absolute_example :
    do_post machine (record {
      path = codes "/api/lkm/run";
      body = object (record {
        code = some (text source);
        module_id = some (text (codes "/" ++ codes "tmp/a"));
        exercise_id = some (text (codes "x"));
      });
    })
    ≡ respond (script_result (exited (pos 0) [] []))
unfolding check_qemu_status
do_post-absolute_example =
    do_post-absolute machine (codes "tmp/a") (codes "x") source refl (omega arith) refl
