-- ===== src/Web/Tests/Practice.antt =====
-- web/editor.js: solutions that are run from the page.
use cppcourse.Base.{◌≡◌, refl, Bool, true, false, List, [], ◌∷◌, none, ◌||◌, ◌&&◌}
use cppcourse.Base.Int.{pos}
use cppcourse.Base.Text.{codes}
use cppcourse.Base.Strings.{same_text}
use cppcourse.Server.Runner.{FilePath, Machine, exited}
use cppcourse.Server.Routes.{do_post}
use cppcourse.Web.Practice.{has, ex_load_progress, Exercise, Panel, display_result, run_click}
use cppcourse.Web.Practice.Modules.{Unmarked, run_click-Unmarked}
use cppcourse.Web.Practice.Lost.{success, open_panel, seen, display_result-lost}

abbrev is_in : FilePath → List FilePath → Bool
is_in p [] = false
is_in p (q ∷ qs) = same_path p q || is_in p qs
  where
    same_path : FilePath → FilePath → Bool
    same_path [] [] = true
    same_path [] (y ∷ ys) = false
    same_path (x ∷ xs) [] = false
    same_path (x ∷ xs) (y ∷ ys) = same_text x y && same_path xs ys

-- A machine with one exercise in C, on which everything compiles and returns 0, and with QEMU.
abbrev machine : Machine
machine = record {
  root = codes "course" ∷ [];
  exists = λ p. is_in p (
      (codes "course"
        ∷ codes "content"
        ∷ codes "exercises"
        ∷ codes "f1"
        ∷ codes "01"
        ∷ codes "test.c"
        ∷ [])
      ∷ (codes "course" ∷ codes ".qemu" ∷ codes "bzImage" ∷ [])
      ∷ (codes "course" ∷ codes ".qemu" ∷ codes "initrd.img" ∷ [])
      ∷ []);
  compile = λ c s t. exited (pos 0) [] [];
  run = λ c s t. exited (pos 0) [] [];
  has_qemu = true;
  run_in_qemu = λ x s t d. exited (pos 0) [] [];
}

abbrev in_c : Exercise
in_c = record { id = codes "01"; lkm = false }

abbrev kernel_module : Exercise
kernel_module = record { id = codes "01-hello"; lkm = true }

abbrev panel : Panel
panel = record { prog = []; storage = none; takes = λ prog. true; header = none }

run_click-Unmarked_example :
    Unmarked panel
      (run_click (λ s. s) (do_post machine) (codes "k1") kernel_module (codes "int x;") panel)
run_click-Unmarked_example =
    run_click-Unmarked (λ s. s) machine (codes "k1") (codes "int x;") kernel_module panel
      (λ s h. refl) refl refl

display_result-lost_example :
    let first = display_result success (codes "f1.01") (open_panel none) in
    let second = display_result success (codes "f1.02") (seen first.storage (open_panel none)) in
    (has (codes "f1.01") (ex_load_progress first.storage) ≡ true)
    × (has (codes "f1.01") (ex_load_progress second.storage) ≡ (
        same_text (codes "f1.01") (codes "f1.02") || has (codes "f1.01") (ex_load_progress none)))
display_result-lost_example = display_result-lost none (codes "f1.01") (codes "f1.02")
