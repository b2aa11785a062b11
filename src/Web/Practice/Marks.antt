-- ===== src/Web/Practice/Marks.antt =====
-- web/editor.js and web/quiz.js: a key that is marked.
use cppcourse.Base.{ℕ, ◌≡◌, arith, true, List, ◌||◌, Bool-cases, inl, inr}
use cppcourse.Base.Strings.{same_text, same_text_eq}
use cppcourse.Web.Practice.{Progress, has, mark}

pub has-mark : (j k : List ℕ) (p : Progress) → has j (mark k p) ≡ (same_text j k || has j p)
has-mark j k p = elim (Bool-cases (has k p)) [
  | inl e ↦ elim (Bool-cases (same_text j k)) [
    | inl f ↦ let there : has j p ≡ true = rw (same_text_eq j k f) e in ground arith
    | inr f ↦ ground arith
  ]
  | inr e ↦ ground arith
]
