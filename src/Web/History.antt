-- ===== src/Web/History.antt =====
-- web/ai-chat.js: the history of the chat, which is kept in `localStorage` by modules.
pub mod Entries
pub mod Kept
pub mod Answers
use cppcourse.Base.{
  ℕ, ◌-◌, Bool, true, false, List, [], ◌∷◌, ◌++◌, length, drop, if◌then◌else◌, ◌||◌,
}
use cppcourse.Base.Strings.{same_text}
use cppcourse.Web.Chat.{trim}

pub data Role : Type 0 where
  user assistant : Role

pub record Message : Type 0 where
  pub role : Role
  pub content : List ℕ

abbrev pub Histories : Type 0
Histories = List (List ℕ × List Message)

-- What is stored: nothing, what is no JSON object, or an object by its entries.
pub data Stored : Type 0 where
  absent unreadable : Stored
  object : Histories → Stored

-- `all[moduleId]`, or an empty array if there is none.
abbrev pub lookup : List ℕ → Histories → List Message
lookup id [] = []
lookup id ((k, ms) ∷ all) = let rest = lookup id all in if same_text id k then ms else rest

-- `all[moduleId] = messages`
abbrev pub assign : List ℕ → List Message → Histories → Histories
assign id ms [] = (id, ms) ∷ []
assign id ms ((k, old) ∷ all) =
    let rest = assign id ms all in if same_text id k then (k, ms) ∷ all else (k, old) ∷ rest

abbrev pub max_messages : ℕ
max_messages = 40

-- `messages.slice(-40)`
abbrev pub last_messages : List Message → List Message
last_messages ms = drop (length ms - max_messages) ms

abbrev put_item : (Histories → Bool) → Histories → Stored → Stored
put_item takes all s = if takes all then object all else s

-- What cannot be parsed stays as it is, and so does all when `setItem` throws because the browser does not take what
-- is to be stored.
unfoldable pub ai_save_history : (Histories → Bool) → List ℕ → List Message → Stored → Stored
ai_save_history takes id ms absent = put_item takes (assign id (last_messages ms) []) absent
ai_save_history takes id ms unreadable = unreadable
ai_save_history takes id ms (object all) =
    put_item takes (assign id (last_messages ms) all) (object all)

unfoldable pub ai_load_history : List ℕ → Stored → List Message
ai_load_history id absent = []
ai_load_history id unreadable = []
ai_load_history id (object all) = lookup id all

pub record Chat : Type 0 where
  pub messages : List Message
  pub is_streaming : Bool
  pub storage : Stored

-- The panel as it is built.
abbrev pub open_chat : List ℕ → Stored → Chat
open_chat id s = record { messages = ai_load_history id s; is_streaming = false; storage = s }

-- A click on "send" with that text in the field, the end of an answer with the text that was read, and a click on
-- "clear" with the answer to the question whether to do so.
pub data Event : Type 0 where
  send : List ℕ → Event
  answer : List ℕ → Event
  clear : Bool → Event

abbrev pub is_empty : List ℕ → Bool
is_empty [] = true
is_empty (c ∷ s) = false

-- `messages.push(…); aiSaveHistory(…)`
abbrev push : (Histories → Bool) → List ℕ → Role → List ℕ → Chat → Chat
push takes id role text c =
    let messages = c.messages ++ record { role = role; content = text } ∷ [] in
    record c { messages = messages; storage = ai_save_history takes id messages c.storage }

unfoldable pub step : (Histories → Bool) → List ℕ → Event → Chat → Chat
step takes id (send text) c =
    if is_empty (trim text) || c.is_streaming
    then c
    else push takes id user (trim text) (record c { is_streaming = true })
step takes id (answer text) c =
    if c.is_streaming
    then (let now = record c { is_streaming = false } in
        if is_empty text then now else push takes id assistant text now)
    else c
step takes id (clear confirmed) c =
    if confirmed
    then record c { messages = []; storage = ai_save_history takes id [] c.storage }
    else c

unfoldable pub run : (Histories → Bool) → List ℕ → List Event → Chat → Chat
run takes id [] c = c
run takes id (e ∷ es) c = run takes id es (step takes id e c)
