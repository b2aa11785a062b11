-- ===== src/Server/Paths.antt =====
-- server.py: which files a request can reach by the ids in it.
use mathlib.Core.List.{append_assoc}
use cppcourse.Base.{
  false, ℕ, ◌≡◌, ◌≢◌, refl, sym, ap, ◌∙◌, ==_false, List, [], ◌∷◌, ◌++◌, Bool-cases, inl, inr,
}
use cppcourse.Base.Text.{codes, starts_with}
use cppcourse.Base.Strings.{same_text, same_text_apart, Lacks, split_on, split_on_lacking}
use cppcourse.Server.Routes.{do_post, respond, object}
use cppcourse.Base.{◌⊎◌, true, Option, none, some}
use cppcourse.Server.Runner.{
  Compiler, gcc, gxx, build_result, program_result, script_result, nothing, not_found, lkm_script,
  qemu_dir, Result, FilePath, kept, join, Machine, exercises_dir, exercise_dir, language, Value,
  text, run_exercise, run_lkm, check_qemu_status,
}

-- Names of files and directories, which do not lead up.
abbrev pub Names : FilePath → Type 0
Names [] = Unit {0}
Names (p ∷ ps) = (p ≢ []) × (p ≢ codes ".") × (p ≢ codes "..") × Names ps

Names-append : (a b : FilePath) → Names a → Names b → Names (a ++ b)
Names-append [] b h k = k
Names-append (p ∷ a) b (x, y, z, h) k = (x, y, z, Names-append a b h k)

join-nil : (dir : FilePath) → join dir [] ≡ dir ++ kept ([] ∷ [])
unfolding join starts_with split_on
join-nil dir = refl

-- A text without a slash is one component, or none.
join-lacking : (dir : FilePath) (s : List ℕ) → Lacks b'/' s → join dir s ≡ dir ++ kept (s ∷ [])
unfolding join starts_with
join-lacking dir [] h = join-nil dir
join-lacking dir (c ∷ s) (n, h) =
    rw (==_false c b'/' n) (ap (λ ps. dir ++ kept ps) (split_on_lacking b'/' (c ∷ s) (n, h)))

kept-Names : (s : List ℕ) → s ≢ codes ".." → Names (kept (s ∷ []))
kept-Names s up = elim (Bool-cases (same_text s [])) [
  | inl e ↦ rw e tt
  | inr e ↦ elim (Bool-cases (same_text s (codes "."))) [
    | inl f ↦ rw (e, f) tt
    | inr f ↦ rw (e, f) (same_text_apart s [] e, same_text_apart s (codes ".") f, up, tt)
  ]
]

-- Both ids together.
ids : List ℕ → List ℕ → FilePath
ids a b = kept (a ∷ []) ++ kept (b ∷ [])

exercise_dir-lacking :
    (m : Machine) (a b : List ℕ)
    → Lacks b'/' a
    → Lacks b'/' b
    → exercise_dir m a b ≡ exercises_dir m ++ ids a b
unfolding ids
exercise_dir-lacking m a b h k =
    join-lacking (join (exercises_dir m) a) b k
    ∙ ap (λ d. d ++ kept (b ∷ [])) (join-lacking (exercises_dir m) a h)
    ∙ append_assoc (exercises_dir m) (kept (a ∷ [])) (kept (b ∷ []))

-- A file of this name in the directory that the ids name, by its components below the exercises.
below :
    (m : Machine) (a b name : List ℕ)
    → Lacks b'/' a
    → Lacks b'/' b
    → exercise_dir m a b ++ name ∷ [] ≡ exercises_dir m ++ (ids a b ++ name ∷ [])
below m a b name h k =
    ap (λ d. d ++ name ∷ []) (exercise_dir-lacking m a b h k)
    ∙ append_assoc (exercises_dir m) (ids a b) (name ∷ [])

below-Names :
    (a b name : List ℕ)
    → a ≢ codes ".."
    → b ≢ codes ".."
    → Names (name ∷ [])
    → Names (ids a b ++ name ∷ [])
unfolding ids
below-Names a b name up up' n =
    Names-append (kept (a ∷ []) ++ kept (b ∷ [])) (name ∷ [])
      (Names-append (kept (a ∷ [])) (kept (b ∷ [])) (kept-Names a up) (kept-Names b up')) n

-- The result is that of a compiler on the source and a file that exists below the directory of the exercises, and of
-- the program that this gives.
abbrev pub BuiltBelow : Machine → List ℕ → Option Result → Type 0
BuiltBelow m source r =
    (c : Compiler) × (names : FilePath) × Names names
    × (m.exists (exercises_dir m ++ names) ≡ true)
    × (r
        ≡ build_result (m.compile c source (exercises_dir m ++ names))
            (program_result (m.run c source (exercises_dir m ++ names))))

-- The directory has neither test, and the result says so.
abbrev pub NotFound : Machine → FilePath → Option Result → Type 0
NotFound m dir r =
    (m.exists (dir ++ codes "test.cpp" ∷ []) ≡ false)
    × (m.exists (dir ++ codes "test.c" ∷ []) ≡ false)
    × ((reason : List ℕ) × (r
          ≡ some (record nothing { error = some not_found; message = some reason })))

built-Below :
    (m : Machine) (a b name source : List ℕ) (c : Compiler)
    → Lacks b'/' a
    → a ≢ codes ".."
    → Lacks b'/' b
    → b ≢ codes ".."
    → Names (name ∷ [])
    → m.exists (exercise_dir m a b ++ name ∷ []) ≡ true
    → language m (exercise_dir m a b) ≡ some (c, exercise_dir m a b ++ name ∷ [])
    → BuiltBelow m source (run_exercise m a b (text source))
unfolding run_exercise
built-Below m a b name source c h up k up' n there found =
    let path = below m a b name h k in
    (
      c,
      ids a b ++ name ∷ [],
      below-Names a b name up up' n,
      sym (ap m.exists path) ∙ there,
      rw (found, run_exercise)
          (ap (λ f. build_result (m.compile c source f) (program_result (m.run c source f))) path),
    )

-- For two ids neither of which has a slash or is "..", the server finds no test and answers so, or
-- compiles the solution with a file that exists below the directory of the exercises and runs the program that
-- this gives: no ids lead it to a test elsewhere.
pub run_exercise-BuiltBelow :
    (m : Machine) (a b source : List ℕ)
    → Lacks b'/' a
    → a ≢ codes ".."
    → Lacks b'/' b
    → b ≢ codes ".."
    → NotFound m (exercise_dir m a b) (run_exercise m a b (text source))
      ⊎ BuiltBelow m source (run_exercise m a b (text source))
unfolding run_exercise language
run_exercise-BuiltBelow m a b source h up k up' =
    let dir = exercise_dir m a b in
    elim (Bool-cases (m.exists (dir ++ codes "test.cpp" ∷ []))) [
      | inl e ↦ inr (
          built-Below m a b (codes "test.cpp") source gxx h up k up'
            ((λ x. cc), (λ x. cc), (λ x. cc), tt) e (rw e refl))
      | inr e ↦ elim (Bool-cases (m.exists (dir ++ codes "test.c" ∷ []))) [
        | inl f ↦ inr (
            built-Below m a b (codes "test.c") source gcc h up k up'
              ((λ x. cc), (λ x. cc), (λ x. cc), tt) f (rw (e, f) refl))
        | inr f ↦
            inl (e, f, (a ++ codes "/" ++ b ++ codes " не найдено", rw (e, f, run_exercise) refl))
      ]
    ]

absolute_dir :
    (m : Machine) (p e : List ℕ)
    → Lacks b'/' e
    → exercise_dir m (codes "/" ++ p) e ≡ kept (split_on b'/' (codes "/" ++ p)) ++ kept (e ∷ [])
absolute_dir m p e h =
    let whole : join (exercises_dir m) (codes "/" ++ p) ≡ kept (split_on b'/' (codes "/" ++ p)) =
      unfold join in unfold starts_with in refl in
    ap (λ d. join d e) whole ∙ join-lacking _ e h

lkm_request :
    (m : Machine) (a b c : Value)
    → do_post m (record {
      path = codes "/api/lkm/run";
      body = object (record { code = some c; module_id = some a; exercise_id = some b });
    })
      ≡ respond (run_lkm m a b c)
unfolding do_post starts_with
lkm_request m a b c = refl

run_lkm-there :
    (m : Machine) (a b source : List ℕ)
    → check_qemu_status m ≡ none
    → m.exists (exercise_dir m a b ++ codes "qemu_test.sh" ∷ []) ≡ true
    → run_lkm m (text a) (text b) (text source)
      ≡ script_result (
          m.run_in_qemu
            (lkm_script m)
            source
            (exercise_dir m a b ++ codes "qemu_test.sh" ∷ [])
            (qemu_dir m))
unfolding run_lkm
run_lkm-there m a b source ready there = rw (ready, run_lkm) (rw there refl)

-- A kernel module with an absolute path for the id of its module is run in QEMU with the qemu_test.sh of that
-- directory, or of the one below it that the other id names, wherever that lies, if QEMU is ready and the file exists.
pub do_post-absolute :
    (m : Machine) (p e source : List ℕ)
    → check_qemu_status m ≡ none
    → Lacks b'/' e
    → let dir = kept (split_on b'/' (codes "/" ++ p)) ++ kept (e ∷ []) in
      m.exists (dir ++ codes "qemu_test.sh" ∷ []) ≡ true
      → do_post m (record {
        path = codes "/api/lkm/run";
        body = object (record {
          code = some (text source);
          module_id = some (text (codes "/" ++ p));
          exercise_id = some (text e);
        });
      })
        ≡ respond (
            script_result
              (m.run_in_qemu (lkm_script m) source (dir ++ codes "qemu_test.sh" ∷ []) (qemu_dir m)))
do_post-absolute m p e source ready h there =
    let path = ap (λ d. d ++ codes "qemu_test.sh" ∷ []) (absolute_dir m p e h) in
    lkm_request m (text (codes "/" ++ p)) (text e) (text source)
    ∙ ap respond (
        run_lkm-there m (codes "/" ++ p) e source ready (ap m.exists path ∙ there)
        ∙ ap (λ f. script_result (m.run_in_qemu (lkm_script m) source f (qemu_dir m))) path)
