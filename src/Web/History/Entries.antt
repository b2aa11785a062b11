-- ===== src/Web/History/Entries.antt =====
-- web/ai-chat.js: the entries of the object that is stored.
use cppcourse.Base.{
  ℕ, ◌≡◌, refl, sym, ap, ◌∙◌, false, List, [], ◌∷◌, if◌then◌else◌, Bool-cases, inl, inr,
}
use cppcourse.Base.Strings.{same_text, same_text_refl, same_text_eq}
use cppcourse.Web.History.{Message, Histories, lookup, assign}

pub lookup-assign :
    (id : List ℕ) (ms : List Message) (all : Histories) → lookup id (assign id ms all) ≡ ms
lookup-assign id ms [] = rw (same_text_refl id) refl
lookup-assign id ms ((k, old) ∷ all) = elim (Bool-cases (same_text id k)) [
  | inl e ↦ rw (e, e) refl
  | inr e ↦ rw (e, e) (lookup-assign id ms all)
]

pub lookup-assign_other :
    (j id : List ℕ) (ms : List Message) (all : Histories)
    → same_text j id ≡ false
    → lookup j (assign id ms all) ≡ lookup j all
lookup-assign_other j id ms [] h = rw h refl
lookup-assign_other j id ms ((k, old) ∷ all) h = elim (Bool-cases (same_text id k)) [
  | inl e ↦
      let other : same_text j k ≡ false = ap (same_text j) (sym (same_text_eq id k e)) ∙ h in
      rw (e, other) refl
  | inr e ↦
      rw e (ap (λ rest. if same_text j k then old else rest) (lookup-assign_other j id ms all h))
]
