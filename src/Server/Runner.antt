-- ===== src/Server/Runner.antt =====
-- server.py: building and running a solution. What the machine does is the parameter `Machine`: its files, the
-- compilers, the programs that they build, and QEMU. `none` is an exception that leaves the function.
use cppcourse.Base.{ℕ, Bool, false, not, List, [], ◌∷◌, ◌++◌, Option, none, some, if◌then◌else◌}
use cppcourse.Base.Int.{ℤ, pos, negsuc, eqb_ℤ}
use cppcourse.Base.Text.{codes, starts_with}
use cppcourse.Base.Strings.{same_text, split_on}

-- An absolute path by its components.
abbrev pub FilePath : Type 0
FilePath = List (List ℕ)

-- The components that `Path` keeps: an empty one and "." are dropped, ".." stays.
abbrev pub kept : List (List ℕ) → FilePath
kept [] = []
kept (p ∷ ps) =
    let rest = kept ps in
    if same_text p [] then rest else if same_text p (codes ".") then rest else p ∷ rest

-- `dir / s`: a path that starts with a slash replaces the directory.
unfoldable pub join : FilePath → List ℕ → FilePath
join dir s =
    if starts_with s (codes "/") then kept (split_on b'/' s) else dir ++ kept (split_on b'/' s)

pub data Compiler : Type 0 where
  gcc gxx : Compiler

-- What `subprocess.run` comes to: the return code and the two outputs, a timeout, or another exception, such as
-- that of a program that cannot be started, or whose output is no UTF-8.
pub data Run : Type 0 where
  exited : ℤ → List ℕ → List ℕ → Run
  timed_out : Run
  raises : Run

pub record Machine : Type 0 where
  pub root : FilePath
  pub exists : FilePath → Bool
  -- the compiler on a source and the test file, and the program that it has built from them
  pub compile : Compiler → List ℕ → FilePath → Run
  pub run : Compiler → List ℕ → FilePath → Run
  pub has_qemu : Bool
  -- a script, such as qemu-run-lkm.sh, on a source, the script of the test and the directory of QEMU's files
  pub run_in_qemu : FilePath → List ℕ → FilePath → FilePath → Run

pub data Failure : Type 0 where
  not_found compile_timeout compile timeout qemu_unavailable : Failure
  -- "Invalid JSON" and "Not found"
  invalid_json unknown_path : Failure

-- The dictionary that is answered, by its entries.
pub record Result : Type 0 where
  pub error : Option Failure
  pub message : Option (List ℕ)
  pub exit_code : Option ℤ
  pub stdout : Option (List ℕ)
  pub stderr : Option (List ℕ)
  pub passed : Option Bool

abbrev pub nothing : Result
nothing = record {
  error = none;
  message = none;
  exit_code = none;
  stdout = none;
  stderr = none;
  passed = none;
}

abbrev pub exercises_dir : Machine → FilePath
exercises_dir m = m.root ++ codes "content" ∷ codes "exercises" ∷ []

abbrev pub exercise_dir : Machine → List ℕ → List ℕ → FilePath
exercise_dir m module_id exercise_id = join (join (exercises_dir m) module_id) exercise_id

abbrev pub qemu_dir : Machine → FilePath
qemu_dir m = m.root ++ codes ".qemu" ∷ []

abbrev pub lkm_script : Machine → FilePath
lkm_script m = m.root ++ codes "scripts" ∷ codes "qemu-run-lkm.sh" ∷ []

-- The compiler and the test file: C++ if there is a test.cpp, C if there is a test.c.
unfoldable pub language : Machine → FilePath → Option (Compiler × FilePath)
language m dir =
    let test_cpp = dir ++ codes "test.cpp" ∷ [] in
    let test_c = dir ++ codes "test.c" ∷ [] in
    if m.exists test_cpp
    then some (gxx, test_cpp)
    else if m.exists test_c
    then some (gcc, test_c)
    else none

-- The result of the program.
abbrev pub program_result : Run → Option Result
program_result (exited code out err) = some (record nothing {
  exit_code = some code;
  stdout = some out;
  stderr = some err;
  passed = some (eqb_ℤ code (pos 0));
})
program_result timed_out = some (record nothing {
  error = some timeout;
  exit_code = some (negsuc 0);
  stdout = some [];
  stderr = some [];
  passed = some false;
})
program_result raises = none

-- The result if the compiler comes to this, and the program to that.
abbrev pub build_result : Run → Option Result → Option Result
build_result (exited code out err) run =
    if eqb_ℤ code (pos 0)
    then run
    else some (record nothing {
      error = some compile;
      stderr = some err;
      stdout = some out;
      exit_code = some code;
    })
build_result timed_out run =
    some
      (record nothing { error = some compile_timeout; stderr = some (codes "Компиляция > 30 сек") })
build_result raises run = none

-- A value in the request: a text, or any other, which `write_text` and the paths refuse.
pub data Value : Type 0 where
  text : List ℕ → Value
  other : Value

unfoldable pub run_exercise : Machine → List ℕ → List ℕ → Value → Option Result
run_exercise m module_id exercise_id user_code =
    elim (language m (exercise_dir m module_id exercise_id)) [
      | none ↦ some (record nothing {
        error = some not_found;
        message = some (module_id ++ codes "/" ++ exercise_id ++ codes " не найдено");
      })
      | some (compiler, test_file) ↦ elim user_code [
        | other ↦ none
        | text source ↦
            build_result (m.compile compiler source test_file)
              (program_result (m.run compiler source test_file))
      ]
    ]

-- The reason why QEMU is not available, if it is not.
unfoldable pub check_qemu_status : Machine → Option (List ℕ)
check_qemu_status m =
    if not m.has_qemu
    then some (codes "qemu-system-x86_64 не установлен. Установи: apt install qemu-system-x86")
    else if not (m.exists (qemu_dir m ++ codes "bzImage" ∷ []))
    then some (codes "Ядро QEMU не готово. Запусти: bash scripts/qemu-setup.sh")
    else if not (m.exists (qemu_dir m ++ codes "initrd.img" ∷ []))
    then some (codes "Initrd не создан. Запусти: bash scripts/qemu-setup.sh")
    else none

abbrev pub script_result : Run → Option Result
script_result (exited code out err) = program_result (exited code out err)
script_result timed_out = some (record nothing { error = some timeout; passed = some false })
script_result raises = none

unfoldable pub run_lkm : Machine → Value → Value → Value → Option Result
run_lkm m module_id exercise_id user_code = elim (check_qemu_status m) [
  | some reason ↦
      some (record nothing {
        error = some qemu_unavailable;
        message = some reason;
        passed = some false;
      })
  | none ↦ in_dir module_id exercise_id
]
  where
    in_dir : Value → Value → Option Result
    in_dir (text module_id) (text exercise_id) =
        let run_script = exercise_dir m module_id exercise_id ++ codes "qemu_test.sh" ∷ [] in
        if not (m.exists run_script)
        then some (record nothing {
          error = some not_found;
          message = some (codes "qemu_test.sh не найден");
        })
        else elim user_code [
          | other ↦ none
          | text source ↦
              script_result (m.run_in_qemu (lkm_script m) source run_script (qemu_dir m))
        ]
    in_dir other e = none
    in_dir (text module_id) other = none
