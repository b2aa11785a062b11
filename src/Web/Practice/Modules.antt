-- ===== src/Web/Practice/Modules.antt =====
-- web/editor.js and server.py together: exercises that are kernel modules. The page sends no ids for them.
use mathlib.Core.List.{append-nil}
use cppcourse.Base.{
  ℕ, ◌≡◌, ◌≢◌, refl, ap, ◌∙◌, true, false, List, [], ◌∷◌, ◌++◌, none, some, Option,
}
use cppcourse.Base.Text.{codes, starts_with}
use cppcourse.Base.Strings.{split_on}
use cppcourse.Server.Runner.{
  Machine, exercises_dir, exercise_dir, join, text, run_lkm, check_qemu_status,
}
use cppcourse.Server.Routes.{do_post, respond}
use cppcourse.Web.Practice.{
  KeepsPlain, Exercise, Panel, all_passed, run_click, endpoint, display_result, show, prog_key,
}

-- Without ids the directory is that of all exercises.
dir_of_nothing : (m : Machine) → exercise_dir m [] [] ≡ exercises_dir m
unfolding join split_on starts_with
dir_of_nothing m = ap (λ d. d ++ []) (append-nil (exercises_dir m)) ∙ append-nil (exercises_dir m)

abbrev pub Unmarked : Panel → Panel → Type 0
Unmarked p q = (q.storage ≡ p.storage) × (q.prog ≡ p.prog) × (q.header ≢ some all_passed)

show-Unmarked :
    (status : Option (List ℕ)) (m : Machine) (code key : List ℕ) (p : Panel)
    → check_qemu_status m ≡ status
    → m.exists (exercises_dir m ++ codes "qemu_test.sh" ∷ []) ≡ false
    → Unmarked p (show (respond (run_lkm m (text []) (text []) (text code))) key p)
unfolding run_lkm display_result
show-Unmarked (some reason) m code key p e absent = rw (e, run_lkm) (refl, refl, λ h. cc)
show-Unmarked none m code key p e absent =
    rw (e, run_lkm) (rw (dir_of_nothing m) (rw absent (refl, refl, λ h. cc)))

-- If the browser leaves a plain address as it is, then as long as the directory of all exercises has no
-- qemu_test.sh, an exercise that is a kernel module is never marked as passed, whatever the solution is and
-- whatever the compiler and QEMU would make of it.
pub run_click-Unmarked :
    (fetch_path : List ℕ → List ℕ) (m : Machine) (module_id code : List ℕ) (ex : Exercise)
    (p : Panel)
    → KeepsPlain fetch_path
    → ex.lkm ≡ true
    → m.exists (exercises_dir m ++ codes "qemu_test.sh" ∷ []) ≡ false
    → Unmarked p (run_click fetch_path (do_post m) module_id ex code p)
unfolding run_click do_post endpoint starts_with
run_click-Unmarked fetch_path m module_id code ex p keeps h absent =
    simp (h, keeps (codes "lkm/run") refl)
      (show-Unmarked (check_qemu_status m) m code (prog_key module_id ex) p refl absent)
