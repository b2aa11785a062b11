-- ===== src/Web/Practice.antt =====
-- web/editor.js: running a solution from the page and keeping what has been passed.
pub mod Grading
pub mod Modules
pub mod Lost
pub mod Marks
use cppcourse.Base.{
  ℕ, ◌≡◌, leb, ◌==◌, ◌&&◌, ◌||◌, Bool, true, false, List, [], ◌∷◌, ◌++◌, Option, none, some,
  if◌then◌else◌,
}
use cppcourse.Base.Int.{pos, eqb_ℤ}
use cppcourse.Base.Text.{codes}
use cppcourse.Base.Strings.{same_text}
use cppcourse.Server.Runner.{
  Result, compile, timeout, qemu_unavailable, not_found, compile_timeout, invalid_json,
  unknown_path, Failure, text,
}
use cppcourse.Server.Routes.{Post, object, no_fields, Response, json, chat, dropped, prefix, suffix}

-- The keys whose value is true in an object of `localStorage`.
abbrev pub Progress : Type 0
Progress = List (List ℕ)

abbrev pub has : List ℕ → Progress → Bool
has key [] = false
has key (k ∷ prog) = same_text key k || has key prog

-- `prog[key] = true`
abbrev pub mark : List ℕ → Progress → Progress
mark key prog = if has key prog then prog else key ∷ prog

-- What is stored, `none` being nothing or what is no JSON.
unfoldable pub ex_load_progress : Option Progress → Progress
ex_load_progress none = []
ex_load_progress (some p) = p

pub record Exercise : Type 0 where
  pub id : List ℕ
  pub lkm : Bool

abbrev pub prog_key : List ℕ → Exercise → List ℕ
prog_key module_id ex = module_id ++ codes "." ++ ex.id

pub data Header : Type 0 where
  compile_error too_long no_qemu all_passed not_passed no_connection : Header

-- The panel: the progress that it loaded when it was built, what is stored, whether the browser takes what is to
-- be stored (else `setItem` throws), and the header shown.
pub record Panel : Type 0 where
  pub prog : Progress
  pub storage : Option Progress
  pub takes : Progress → Bool
  pub header : Option Header

-- The early returns of `displayResult`.
abbrev early : Option Failure → Option Header
early none = none
early (some compile) = some compile_error
early (some timeout) = some too_long
early (some qemu_unavailable) = some no_qemu
early (some not_found) = none
early (some compile_timeout) = none
early (some invalid_json) = none
early (some unknown_path) = none

-- `result.passed && result.exit_code === 0`
abbrev all_tests : Result → Bool
all_tests r =
    (elim r.passed [ none ↦ false | some b ↦ b ])
    && (elim r.exit_code [ none ↦ false | some c ↦ eqb_ℤ c (pos 0) ])

-- `exSaveProgress`, and what the handler shows: the error when nothing is stored.
abbrev save : Progress → Panel → Panel
save prog p =
    if p.takes prog
    then record p { prog = prog; storage = some prog; header = some all_passed }
    else record p { prog = prog; header = some no_connection }

unfoldable pub display_result : Result → List ℕ → Panel → Panel
display_result r key p = elim (early r.error) [
  | some h ↦ record p { header = some h }
  | none ↦ if all_tests r then save (mark key p.prog) p else record p { header = some not_passed }
]

unfoldable pub endpoint : List ℕ → Exercise → List ℕ
endpoint module_id ex =
    if ex.lkm then codes "/api/lkm/run" else prefix ++ (module_id ++ codes "/" ++ ex.id) ++ suffix

-- What the page makes of the answer; without one, or with one that is no JSON, it shows an error of the
-- connection.
abbrev pub show : Response → List ℕ → Panel → Panel
show (json status r) key p = display_result r key p
show chat key p = record p { header = some no_connection }
show dropped key p = record p { header = some no_connection }

-- What stands in the ids of the course and in the addresses: letters, digits, "-", "_" and the slash.
abbrev is_plain : ℕ → Bool
is_plain c =
    leb b'a' c && leb c b'z'
    || (leb b'A' c && leb c b'Z'
        || (leb b'0' c && leb c b'9' || (c == b'-' || (c == b'_' || c == b'/'))))

abbrev pub all_plain : List ℕ → Bool
all_plain [] = true
all_plain (c ∷ s) = is_plain c && all_plain s

-- The path that the browser asks for when `fetch` is called with an address; the standard of the URL leaves such
-- characters as they are, while it cuts, resolves or encodes others.
abbrev pub KeepsPlain : (List ℕ → List ℕ) → Type 0
KeepsPlain fetch_path =
    (s : List ℕ) → all_plain s ≡ true → fetch_path (codes "/api/" ++ s) ≡ codes "/api/" ++ s

-- The handler of the button: the request has the code and nothing else.
unfoldable pub run_click :
    (List ℕ → List ℕ) → (Post → Response) → List ℕ → Exercise → List ℕ → Panel → Panel
run_click fetch_path server module_id ex code p =
    let answer = server (record {
      path = fetch_path (endpoint module_id ex);
      body = object (record no_fields { code = some (text code) });
    }) in
    show answer (prog_key module_id ex) p
