-- ===== src/Web/Quiz/Reset.antt =====
-- web/quiz.js: the answers that a reset of one module's quiz deletes.
use cppcourse.Base.{ℕ, ◌≡◌, ap, ◌∙◌, ◌&&◌, not, List, Option, ◌++◌}
use cppcourse.Base.Text.{codes}
use cppcourse.Base.Strings.{same_text, Lacks}
use cppcourse.Web.Practice.{Progress, has}
use cppcourse.Web.Quiz.{key, question_id, quiz_load_progress, quiz_reset_module}
use cppcourse.Web.Quiz.Ids.{has-without_prefix, starts_with-other}

-- If no id of a module has a point in it, then after a reset of the module `m` the answer to a question of the
-- module `n` is recorded exactly if it was and `n` is another module: the reset deletes all answers of its own
-- module, and none of the others'.
pub quiz_reset_module-key :
    (m n : List ℕ) (si qi : ℕ) (s : Option Progress)
    → Lacks b'.' m
    → Lacks b'.' n
    → has (key n si qi) (quiz_load_progress (quiz_reset_module m s))
      ≡ (not (same_text n m) && has (key n si qi) (quiz_load_progress s))
unfolding quiz_reset_module quiz_load_progress
quiz_reset_module-key m n si qi s h k =
    has-without_prefix (m ++ codes ".") (key n si qi) (quiz_load_progress s)
    ∙ ap (λ b. not b && has (key n si qi) (quiz_load_progress s))
        (starts_with-other m n (question_id si qi) h k)
