-- ===== src/Web/Quiz/Ids.antt =====
-- web/quiz.js: the keys that answers are recorded under.
use mathlib.Core.List.{append_assoc}
use cppcourse.Base.{
  ℕ, ◌≡◌, refl, sym, ap, ap₂, ◌∙◌, arith, true, List, [], ◌∷◌, ◌++◌, ◌&&◌, ◌==◌, ==_iff, ==_false,
  Bool-cases, inl, inr, not,
}
use cppcourse.Base.Text.{codes, decimal, starts_with}
use cppcourse.Base.Decimal.{decimal_injective, decimal-Lacks}
use cppcourse.Base.Strings.{
  same_text, same_text_refl, same_text_eq, starts_with-append, Lacks, split_on, split_on_lacking,
  split_on-append,
}
use cppcourse.Web.Practice.{Progress, has}
use cppcourse.Web.Quiz.{question_id, key, without_prefix}

append-cancel : (p s t : List ℕ) → p ++ s ≡ p ++ t → s ≡ t
append-cancel [] s t e = e
append-cancel (x ∷ p) s t e = append-cancel p s t cc

-- The two numbers of an id, as texts.
split-question_id :
    (si qi : ℕ) → split_on b'q' (question_id si qi) ≡ (b's' ∷ decimal si) ∷ decimal qi ∷ []
unfolding question_id
split-question_id si qi =
    split_on-append b'q' (b's' ∷ decimal si) (decimal qi)
      (omega arith, decimal-Lacks b'q' si (omega arith))
    ∙ ap (λ l. (b's' ∷ decimal si) ∷ l)
        (split_on_lacking b'q' (decimal qi) (decimal-Lacks b'q' qi (omega arith)))

-- Two questions of a module have two keys.
pub key_injective :
    (m : List ℕ) (si qi sj qj : ℕ) → key m si qi ≡ key m sj qj → (si ≡ sj) × (qi ≡ qj)
key_injective m si qi sj qj e =
    let ids =
      append-cancel (codes ".") (question_id si qi) (question_id sj qj) (append-cancel m _ _ e) in
    let parts = sym (split-question_id si qi) ∙ ap (split_on b'q') ids ∙ split-question_id sj qj in
    (decimal_injective si sj cc, decimal_injective qi qj cc)

pub same_text-key :
    (m : List ℕ) (si qi sj qj : ℕ) → same_text (key m si qi) (key m sj qj) ≡ (si == sj && qi == qj)
same_text-key m si qi sj qj = elim (Bool-cases (same_text (key m si qi) (key m sj qj))) [
  | inl e ↦
      let (a, b) = key_injective m si qi sj qj (same_text_eq _ _ e) in
      e ∙ ground (arith, ==_iff si sj, ==_iff qi qj)
  | inr e ↦ elim (Bool-cases (si == sj && qi == qj)) [
    | inl f ↦
        let a : si ≡ sj = ground (arith, ==_iff si sj) in
        let b : qi ≡ qj = ground (arith, ==_iff qi qj) in
        let same : key m si qi ≡ key m sj qj = ap₂ (key m) a b in
        ap (same_text (key m si qi)) (sym same) ∙ same_text_refl (key m si qi) ∙ sym f
    | inr f ↦ e ∙ sym f
  ]
]

pub has-without_prefix :
    (p k : List ℕ) (prog : Progress)
    → has k (without_prefix p prog) ≡ (not (starts_with k p) && has k prog)
has-without_prefix p k [] = ground arith
has-without_prefix p k (j ∷ prog) = elim (Bool-cases (same_text k j)) [
  | inl e ↦
      let one : starts_with j p ≡ starts_with k p =
        ap (λ t. starts_with t p) (sym (same_text_eq k j e)) in
      ground (arith, has-without_prefix p k prog)
  | inr e ↦ ground (arith, has-without_prefix p k prog)
]

-- A key of the module starts with its prefix.
pub starts_with-key : (m : List ℕ) (si qi : ℕ) → starts_with (key m si qi) (m ++ codes ".") ≡ true
starts_with-key m si qi =
    ap (λ t. starts_with t (m ++ codes ".")) (sym (append_assoc m (codes ".") (question_id si qi)))
    ∙ starts_with-append (m ++ codes ".") (question_id si qi)

-- A key of another module does not, if no id of a module has a point.
pub starts_with-other :
    (m n t : List ℕ)
    → Lacks b'.' m
    → Lacks b'.' n
    → starts_with (n ++ (codes "." ++ t)) (m ++ codes ".") ≡ same_text n m
unfolding starts_with
starts_with-other [] [] t h k = refl
starts_with-other [] (y ∷ n) t h (b, k) = ground (arith, ==_false y b'.' b)
starts_with-other (x ∷ m) [] t (a, h) k = ground (arith, ==_false b'.' x (λ e. a (sym e)))
starts_with-other (x ∷ m) (y ∷ n) t (a, h) (b, k) =
    ap (λ c. (y == x) && c) (starts_with-other m n t h k)
