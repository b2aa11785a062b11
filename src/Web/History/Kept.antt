-- ===== src/Web/History/Kept.antt =====
-- web/ai-chat.js: what the history of a chat is, while it goes on.
use cppcourse.Base.{
  ℕ, ◌≡◌, ◌≢◌, ◌≤◌, refl, sym, ap, ◌∙◌, arith, ◌-◌, true, false, List, [], ◌∷◌, length, drop,
  length-drop, ◌||◌, Bool-cases, inl, inr, ◌⊎◌, Bool, take, suc,
}
use cppcourse.Base.Strings.{same_text, same_text_distinct}
use cppcourse.Web.Chat.{trim}
use cppcourse.Web.History.{
  Message, Histories, Stored, absent, unreadable, object, assign, max_messages, last_messages,
  ai_save_history, put_item, ai_load_history, Chat, Event, send, answer, clear, is_empty, step, run,
  open_chat,
}
use cppcourse.Web.History.Entries.{lookup-assign, lookup-assign_other}

abbrev pub Readable : Stored → Type 0
Readable absent = Unit {0}
Readable unreadable = ⊥
Readable (object all) = Unit {0}

short_enough : (ms : List Message) → length ms ≤ max_messages → last_messages ms ≡ ms
short_enough ms h =
    let none_before : length ms - max_messages ≡ 0 = omega (arith, h) in
    ap (λ n. drop n ms) none_before

length-last_messages : (ms : List Message) → length (last_messages ms) ≤ max_messages
length-last_messages ms = omega (arith, length-drop (length ms - max_messages) ms)

module _ (takes : Histories → Bool) (id j : List ℕ) (s : Stored)
    (others : same_text j id ≡ false) where
  -- The storage has the last of these messages of this module, and what it had of the other one.
  abbrev Keeps : List Message → Stored → Type 0
  Keeps ms t =
      Readable t
      × (ai_load_history id t ≡ last_messages ms)
      × (ai_load_history j t ≡ ai_load_history j s)

  -- The new messages are stored, or the old ones are, which only happens if the browser does not take all.
  abbrev Either : List Message → List Message → Stored → Type 0
  Either ms new t = Keeps new t ⊎ (Keeps ms t × (((all : Histories) → takes all ≡ true) → ⊥))

  put_item-Either :
      (all : Histories) (ms new : List Message) (t : Stored)
      → Keeps ms t
      → Keeps new (object all)
      → Either ms new (put_item takes all t)
  put_item-Either all ms new t h k = elim (Bool-cases (takes all)) [
    | inl e ↦ inl (rw e k)
    | inr e ↦ inr (rw e h, λ f. let differ : true ≡ false = sym (f all) ∙ e in cc)
  ]

  save-Either :
      (ms new : List Message) (t : Stored)
      → Keeps ms t
      → Either ms new (ai_save_history takes id new t)
  unfolding ai_save_history ai_load_history
  save-Either ms new absent (r, h, o) =
      put_item-Either (assign id (last_messages new) []) ms new absent (r, h, o)
        (
          tt,
          lookup-assign id (last_messages new) [],
          lookup-assign_other j id (last_messages new) [] others ∙ o,
        )
  save-Either ms new unreadable (r, h, o) = absurd r
  save-Either ms new (object all) (r, h, o) =
      put_item-Either (assign id (last_messages new) all) ms new (object all) (r, h, o)
        (
          tt,
          lookup-assign id (last_messages new) all,
          lookup-assign_other j id (last_messages new) all others ∙ o,
        )

  -- An event saves the messages that it leaves, or leaves the messages as they are and saves none.
  step-saves :
      (e : Event) (c : Chat)
      → ((step takes id e c).storage
          ≡ ai_save_history takes id (step takes id e c).messages c.storage)
        ⊎ (((step takes id e c).storage ≡ c.storage) × ((step takes id e c).messages ≡ c.messages))
  unfolding step
  step-saves (send text) c = elim (Bool-cases (is_empty (trim text) || c.is_streaming)) [
    | inl e ↦ inr (rw e (refl, refl))
    | inr e ↦ inl (rw e refl)
  ]
  step-saves (answer text) c = elim (Bool-cases c.is_streaming) [
    | inl e ↦ elim (Bool-cases (is_empty text)) [
      | inl f ↦ inr (rw (e, f) (refl, refl))
      | inr f ↦ inl (rw (e, f) refl)
    ]
    | inr e ↦ inr (rw e (refl, refl))
  ]
  step-saves (clear true) c = inl refl
  step-saves (clear false) c = inr (refl, refl)

  step-Either :
      (ms : List Message) (e : Event) (c : Chat)
      → Keeps ms c.storage
      → Either ms (step takes id e c).messages (step takes id e c).storage
        ⊎ (Keeps ms (step takes id e c).storage × ((step takes id e c).messages ≡ c.messages))
  step-Either ms e c h = elim (step-saves e c) [
    | inl saved ↦ inl (rw saved (save-Either ms (step takes id e c).messages c.storage h))
    | inr (same, still) ↦ inr (rw same h, still)
  ]

  run-Keeps :
      (es : List Event) (c : Chat)
      → ((all : Histories) → takes all ≡ true)
      → Keeps c.messages c.storage
      → Keeps (run takes id es c).messages (run takes id es c).storage
  unfolding run
  run-Keeps [] c f h = h
  run-Keeps (e ∷ es) c f h =
      run-Keeps es (step takes id e c) f (elim (step-Either c.messages e c h) [
        | inl (inl new) ↦ new
        | inl (inr (old, full)) ↦ absurd (full f)
        | inr (old, still) ↦ rw still old
      ])

  -- After some of the events the panel had the messages that are stored, unless the ones before are still.
  abbrev Earlier : List Event → Chat → List Message → Stored → Type 0
  Earlier es c ms t = Keeps ms t ⊎ ((k : ℕ) × Keeps (run takes id (take k es) c).messages t)

  shift :
      (e : Event) (es : List Event) (c : Chat) (ms : List Message) (t : Stored)
      → Earlier es (step takes id e c) ms t
      → Earlier (e ∷ es) c ms t
  unfolding run
  shift e es c ms t (inl stays) = inl stays
  shift e es c ms t (inr (k, later)) = inr (suc k, later)

  run-Earlier :
      (es : List Event) (c : Chat) (ms : List Message)
      → Keeps ms c.storage
      → Earlier es c ms (run takes id es c).storage
  unfolding run
  run-Earlier [] c ms h = inl h
  run-Earlier (e ∷ es) c ms h = elim (step-Either ms e c h) [
    | inl (inl new) ↦ elim (run-Earlier es (step takes id e c) (step takes id e c).messages new) [
      | inl stays ↦ inr (1, stays)
      | inr (k, later) ↦ inr (suc k, later)
    ]
    | inl (inr (old, full)) ↦ shift e es c ms _ (run-Earlier es (step takes id e c) ms old)
    | inr (old, still) ↦ shift e es c ms _ (run-Earlier es (step takes id e c) ms old)
  ]

-- While a chat goes on, with questions, answers and clearing in any order, on a storage that can be read, has at
-- most 40 messages of the module, and takes all that is stored: what is stored of it is the last 40 messages of the
-- panel, and what is stored of another module does not change.
pub run-ai_load_history :
    (takes : Histories → Bool) (id j : List ℕ) (s : Stored) (es : List Event)
    → ((all : Histories) → takes all ≡ true)
    → j ≢ id
    → Readable s
    → length (ai_load_history id s) ≤ max_messages
    → let c = run takes id es (open_chat id s) in
      (ai_load_history id c.storage ≡ last_messages c.messages)
      × (length (ai_load_history id c.storage) ≤ max_messages)
      × (ai_load_history j c.storage ≡ ai_load_history j s)
run-ai_load_history takes id j s es f n r h =
    let c = run takes id es (open_chat id s) in
    let (readable, own, other) =
      run-Keeps takes id j s (same_text_distinct j id n) es (open_chat id s) f
        (r, sym (short_enough _ h), refl) in
    let short : length (ai_load_history id c.storage) ≤ max_messages =
      rw own (length-last_messages c.messages) in
    (own, short, other)

-- The same on a storage that takes some of what is to be stored and refuses the rest: what is stored of the module
-- is the last 40 messages that the panel had after some first part of what was done, and what is stored of another
-- module does not change.
pub run-ai_load_history_earlier :
    (takes : Histories → Bool) (id j : List ℕ) (s : Stored) (es : List Event)
    → j ≢ id
    → Readable s
    → length (ai_load_history id s) ≤ max_messages
    → let c = run takes id es (open_chat id s) in
      ((k : ℕ) × (ai_load_history id c.storage
          ≡ last_messages (run takes id (take k es) (open_chat id s)).messages))
      × (length (ai_load_history id c.storage) ≤ max_messages)
      × (ai_load_history j c.storage ≡ ai_load_history j s)
unfolding run
run-ai_load_history_earlier takes id j s es n r h =
    let c = run takes id es (open_chat id s) in
    let o = same_text_distinct j id n in
    elim (run-Earlier takes id j s o es (open_chat id s) (ai_load_history id s)
      (r, sym (short_enough _ h), refl)) [
        | inl (readable, own, other) ↦
            let short : length (ai_load_history id c.storage) ≤ max_messages =
              rw own (length-last_messages (ai_load_history id s)) in
            ((0, own), short, other)
        | inr (k, (readable, own, other)) ↦
            let short : length (ai_load_history id c.storage) ≤ max_messages =
              rw own (length-last_messages (run takes id (take k es) (open_chat id s)).messages) in
            ((k, own), short, other)
      ]
