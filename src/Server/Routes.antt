-- ===== src/Server/Routes.antt =====
-- server.py: the requests.
use cppcourse.Base.{ℕ, ◌&&◌, List, [], ◌∷◌, Option, none, some, if◌then◌else◌}
use cppcourse.Base.Text.{codes, starts_with}
use cppcourse.Base.Strings.{same_text, split_on, ends_with, remove_prefix, remove_suffix}
use cppcourse.Server.Runner.{
  Machine, Result, Failure, invalid_json, unknown_path, nothing, Value, text, run_exercise, run_lkm,
}

-- The entries of a request, as far as the solutions need them.
pub record Fields : Type 0 where
  pub code : Option Value
  pub module_id : Option Value
  pub exercise_id : Option Value

-- The body of a request: one that cannot be read or is no JSON, none, an object, or JSON that has no `get`.
pub data Body : Type 0 where
  bad : Body
  empty : Body
  object : Fields → Body
  no_object : Body

pub record Post : Type 0 where
  pub path : List ℕ
  pub body : Body

-- What a client gets: a result with a status, the stream of the mentor, or nothing, when an exception ends the
-- handler.
pub data Response : Type 0 where
  json : ℕ → Result → Response
  chat : Response
  dropped : Response

abbrev error_reply : ℕ → Failure → Response
error_reply status e = json status (record nothing { error = some e })

abbrev pub respond : Option Result → Response
respond none = dropped
respond (some r) = json 200 r

-- `data.get(key, "")`
abbrev entry : Option Value → Value
entry none = text []
entry (some v) = v

abbrev pub no_fields : Fields
no_fields = record { code = none; module_id = none; exercise_id = none }

-- `data`, on which `get` can be called.
abbrev fields : Body → Option Fields
fields bad = none
fields empty = some no_fields
fields (object f) = some f
fields no_object = none

abbrev pub prefix : List ℕ
prefix = codes "/api/exercises/"

abbrev pub suffix : List ℕ
suffix = codes "/run"

-- With the parts of the path between the two.
abbrev run_parts : Machine → List (List ℕ) → Body → Response
run_parts m (module_id ∷ exercise_id ∷ []) body = elim (fields body) [
  | none ↦ dropped
  | some f ↦ respond (run_exercise m module_id exercise_id (entry f.code))
]
run_parts m _ body = error_reply 404 unknown_path

abbrev dispatch : Machine → List ℕ → Body → Response
dispatch m path body =
    if starts_with path prefix && ends_with path suffix
    then run_parts m (split_on b'/' (remove_suffix suffix (remove_prefix prefix path))) body
    else if same_text path (codes "/api/lkm/run")
    then elim (fields body) [
      | none ↦ dropped
      | some f ↦ respond (run_lkm m (entry f.module_id) (entry f.exercise_id) (entry f.code))
    ]
    else if same_text path (codes "/api/ai/chat")
    then elim (fields body) [ none ↦ dropped | some f ↦ chat ]
    else error_reply 404 unknown_path

unfoldable pub do_post : Machine → Post → Response
do_post m req = elim req.body [
  | bad ↦ error_reply 400 invalid_json
  | _ ↦ dispatch m req.path req.body
]
