-- ===== src/Web/Quiz/Answers.antt =====
-- web/quiz.js: which answers to a choice count.
use cppcourse.Base.{
  ℕ, ◌≡◌, refl, ap₂, sym, ◌∙◌, arith, ◌==◌, ==_iff, ltb, Bool, true, false, ◌&&◌, List, [], ◌∷◌,
  Option, none, some, if◌then◌else◌, Bool-cases, inl, inr,
}
use cppcourse.Base.Strings.{same_text_refl}
use cppcourse.Web.Practice.{Progress, has}
use cppcourse.Web.Practice.Marks.{has-mark}
use cppcourse.Web.Quiz.{
  mcq, Quiz, key, Widget, fresh, answered, quiz_load_progress, quiz_reset_module, render_quiz_panel,
  refresh_quiz_counters, Window, Event, click, show_answer, grade_yes, grade_no, reset, question,
  click_option, step, run, on_done, reset_quiz, open_quiz,
}
use cppcourse.Web.Quiz.Ids.{has-without_prefix, same_text-key, starts_with-key}
use cppcourse.Web.Quiz.Steps.{At, Change, same, moved, recorded, cleared, step-Change}

-- The first click on one of the `n` options of the question since the last reset: what is known after an event.
abbrev pub first_click : ℕ → ℕ → ℕ → Event → Option ℕ → Option ℕ
first_click si qi n (click i j idx) none =
    if (si == i && qi == j) && ltb idx n then some idx else none
first_click si qi n (click i j idx) (some first) = some first
first_click si qi n (reset confirmed) b = if confirmed then none else b
first_click si qi n (show_answer i j) b = b
first_click si qi n (grade_yes i j) b = b
first_click si qi n (grade_no i j) b = b

abbrev pub first_of : ℕ → ℕ → ℕ → List Event → Option ℕ → Option ℕ
first_of si qi n [] b = b
first_of si qi n (e ∷ es) b = first_of si qi n es (first_click si qi n e b)

abbrev pub right : ℕ → Option ℕ → Bool
right answer none = false
right answer (some first) = first == answer

abbrev status : Option ℕ → Widget
status none = fresh
status (some first) = answered

module _ (m : List ℕ) (quiz : Quiz) (si qi n a : ℕ) (q : question quiz si qi ≡ some (mcq n a)) where
  -- The window is as the first click leaves it.
  abbrev Agrees : Option ℕ → Window → Type 0
  Agrees b w =
      (w.page.widgets si qi ≡ status b)
      × (has (key m si qi) (quiz_load_progress w.storage) ≡ right a b)

  elsewhere :
      (b : Option ℕ) (e : Event) (w v : Window)
      → Change m quiz e w v
      → ((i j : ℕ) → At i j e → (si == i && qi == j) ≡ false)
      → (e ≡ reset true → ⊥)
      → Agrees b w
      → Agrees b v
  unfolding on_done quiz_load_progress refresh_quiz_counters
  elsewhere b e w v same away stays h = h
  elsewhere b e w v (moved i j x at) away stays (h, r) = (rw (away i j at) h, r)
  elsewhere b e w v (recorded i j x at) away stays (h, r) = (
    rw (away i j at) h,
    has-mark (key m si qi) (key m i j) (quiz_load_progress w.storage)
        ∙ rw (same_text-key m si qi i j, away i j at) r,
  )
  elsewhere b e w v (cleared c) away stays h = absurd (stays c)

  here : (si == si && qi == qi) ≡ true
  here = ground (arith, ==_iff si si, ==_iff qi qi)

  fresh_click :
      (correct : Bool) (idx : ℕ) (w : Window)
      → has (key m si qi) (quiz_load_progress w.storage) ≡ false
      → let v = click_option m quiz si qi idx correct fresh w in
        (v.page.widgets si qi ≡ answered)
        × (has (key m si qi) (quiz_load_progress v.storage) ≡ correct)
  unfolding on_done quiz_load_progress refresh_quiz_counters
  fresh_click false idx w r = (rw here refl, r)
  fresh_click true idx w r = (
    rw here refl,
    has-mark (key m si qi) (key m si qi) (quiz_load_progress w.storage)
        ∙ rw (same_text_refl (key m si qi)) refl,
  )

  chosen :
      (b : Option ℕ) (idx : ℕ) (w : Window)
      → Agrees b w
      → Agrees
          (elim b [ none ↦ some idx | some first ↦ some first ])
          (click_option m quiz si qi idx (idx == a) (w.page.widgets si qi) w)
  chosen (some first) idx w (h, r) = rw h (h, r)
  chosen none idx w (h, r) = rw h (fresh_click (idx == a) idx w r)

  cleared-Agrees : (w : Window) → Agrees none (reset_quiz m quiz w)
  unfolding quiz_reset_module quiz_load_progress render_quiz_panel
  cleared-Agrees w =
      let gone =
        has-without_prefix _ (key m si qi) (quiz_load_progress w.storage)
        ∙ rw (starts_with-key m si qi) refl in
      (rw gone refl, gone)

  away-At :
      (i j : ℕ) (e : Event)
      → ((s t : ℕ) → At s t e → (i ≡ s) × (j ≡ t))
      → (si == i && qi == j) ≡ false
      → (s t : ℕ) → At s t e
      → (si == s && qi == t) ≡ false
  away-At i j e at f s t p =
      let (x, y) = at s t p in ap₂ (λ s t. si == s && qi == t) (sym x) (sym y) ∙ f

  -- An event at the question that is no click on an option.
  silent :
      (b : Option ℕ) (i j : ℕ) (e : Event) (w : Window)
      → ((s t : ℕ) → At s t e → (i ≡ s) × (j ≡ t))
      → (e ≡ reset true → ⊥)
      → (i ≡ si → j ≡ qi → step m quiz e w ≡ w)
      → Agrees b w
      → Agrees b (step m quiz e w)
  silent b i j e w at stays own h = elim (Bool-cases (si == i && qi == j)) [
    | inl f ↦ rw (own (ground (arith, ==_iff si i)) (ground (arith, ==_iff qi j))) h
    | inr f ↦ elsewhere b e w _ (step-Change m quiz e w) (away-At i j e at f) stays h
  ]

  click-own :
      (b : Option ℕ) (idx : ℕ) (w : Window)
      → Agrees b w
      → Agrees (first_click si qi n (click si qi idx) b) (step m quiz (click si qi idx) w)
  unfolding step
  click-own none idx w h = elim (Bool-cases (ltb idx n)) [
    | inl e ↦ rw (q, here, e) (chosen none idx w h)
    | inr e ↦ rw (q, here, e) h
  ]
  click-own (some first) idx w h = elim (Bool-cases (ltb idx n)) [
    | inl e ↦ rw (q, e) (chosen (some first) idx w h)
    | inr e ↦ rw (q, e) h
  ]

  click-away :
      (b : Option ℕ) (i j idx : ℕ)
      → (si == i && qi == j) ≡ false
      → first_click si qi n (click i j idx) b ≡ b
  click-away none i j idx f = rw f refl
  click-away (some first) i j idx f = refl

  click-Agrees :
      (b : Option ℕ) (i j idx : ℕ) (w : Window)
      → Agrees b w
      → Agrees (first_click si qi n (click i j idx) b) (step m quiz (click i j idx) w)
  click-Agrees b i j idx w h = elim (Bool-cases (si == i && qi == j)) [
    | inl f ↦
        let x : i ≡ si = ground (arith, ==_iff si i) in
        let y : j ≡ qi = ground (arith, ==_iff qi j) in rw (x, y) (click-own b idx w h)
    | inr f ↦ rw (click-away b i j idx f) (
        elsewhere b (click i j idx) w _ (step-Change m quiz (click i j idx) w)
          (away-At i j (click i j idx) (λ s t p. p) f) (λ c. cc) h)
  ]

  step-Agrees :
      (b : Option ℕ) (e : Event) (w : Window)
      → Agrees b w
      → Agrees (first_click si qi n e b) (step m quiz e w)
  unfolding step
  step-Agrees b (click i j idx) w h = click-Agrees b i j idx w h
  step-Agrees b (show_answer i j) w h =
      silent b i j (show_answer i j) w (λ s t p. p) (λ c. cc) (λ f g. rw (f, g, q) refl) h
  step-Agrees b (grade_yes i j) w h =
      silent b i j (grade_yes i j) w (λ s t p. p) (λ c. cc) (λ f g. rw (f, g, q) refl) h
  step-Agrees b (grade_no i j) w h =
      silent b i j (grade_no i j) w (λ s t p. p) (λ c. cc) (λ f g. rw (f, g, q) refl) h
  step-Agrees b (reset false) w h = h
  step-Agrees b (reset true) w h = cleared-Agrees w

  run-Agrees :
      (b : Option ℕ) (es : List Event) (w : Window)
      → Agrees b w
      → Agrees (first_of si qi n es b) (run m quiz es w)
  unfolding run
  run-Agrees b [] w h = h
  run-Agrees b (e ∷ es) w h =
      run-Agrees (first_click si qi n e b) es (step m quiz e w) (step-Agrees b e w h)

-- A choice that is not recorded when the quiz is opened is recorded, after whatever the reader has done there,
-- exactly if the first click on one of its options since the last reset was on the right one: later clicks change
-- nothing, and neither do clicks at other questions.
pub run-first_of :
    (m : List ℕ) (quiz : Quiz) (s : Option Progress) (si qi options answer : ℕ) (es : List Event)
    → question quiz si qi ≡ some (mcq options answer)
    → has (key m si qi) (quiz_load_progress s) ≡ false
    → has (key m si qi) (quiz_load_progress (run m quiz es (open_quiz m quiz s)).storage)
      ≡ right answer (first_of si qi options es none)
unfolding render_quiz_panel
run-first_of m quiz s si qi options answer es q r =
    let (state, record_of) =
      run-Agrees m quiz si qi options answer q none es (open_quiz m quiz s) (rw r refl, r) in
    record_of
