-- ===== src/Web/History/Answers.antt =====
-- web/ai-chat.js and server.py together: an answer of the mentor in the history.
use cppcourse.Base.{Bool, false, if◌then◌else◌, ℕ, ◌≡◌, List, [], ◌∷◌, ◌++◌}
use cppcourse.Web.History.{Histories, is_empty, assistant, Message, ai_save_history, Chat}

abbrev pub said : List ℕ → Message
said text = record { role = assistant; content = text }

-- The messages with an answer, if it is not empty.
abbrev pub with_answer : List ℕ → List Message → List Message
with_answer text ms = if is_empty text then ms else ms ++ said text ∷ []

-- What the end of an answer leaves in the panel and in the storage.
abbrev pub Answered : (Histories → Bool) → List ℕ → List ℕ → Chat → Chat → Type 0
Answered takes id text c d =
    (d.messages ≡ with_answer text c.messages)
    × (d.is_streaming ≡ false)
    × (d.storage ≡ (
        if is_empty text
        then c.storage
        else ai_save_history takes id (with_answer text c.messages) c.storage))
