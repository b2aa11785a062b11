-- ===== src/Web/Chat.antt =====
-- web/ai-chat.js: how the page reads the mentor's answer.
pub mod Actions
pub mod Cuts
pub mod Delivery
pub mod Arrival
pub mod Ending
use cppcourse.Base.{
  ℕ, ltb, leb, ◌==◌, ◌&&◌, ◌||◌, Bool, true, false, List, [], ◌∷◌, ◌++◌, Option, none, some, length,
  drop, if◌then◌else◌,
}
use cppcourse.Base.Text.{codes, starts_with}
use cppcourse.Base.Strings.{same_text, split_on}
use cppcourse.Base.Json.{read_string}
use cppcourse.Server.Mentor.{Event, chunk, done, error}

-- The white space that `trim()` takes off.
abbrev is_space : ℕ → Bool
is_space c =
    leb 9 c && ltb c 14
    || (c == 32
        || (c == 160
            || (c == 5760
                || (leb 8192 c && ltb c 8203
                    || (c == 8232
                        || (c == 8233
                            || (c == 8239 || (c == 8287 || (c == 12288 || c == 65279)))))))))

abbrev trim_start : List ℕ → List ℕ
trim_start [] = []
trim_start (c ∷ s) = let rest = trim_start s in if is_space c then rest else c ∷ s

abbrev put : ℕ → List ℕ → List ℕ
put c [] = if is_space c then [] else c ∷ []
put c (d ∷ s) = c ∷ d ∷ s

abbrev trim_end : List ℕ → List ℕ
trim_end [] = []
trim_end (c ∷ s) = put c (trim_end s)

unfoldable pub trim : List ℕ → List ℕ
trim s = trim_end (trim_start s)

-- The string that was read, if `}` is what stands behind it.
abbrev closed : Option (List ℕ × List ℕ) → Option (List ℕ)
closed none = none
closed (some (s, rest)) = if same_text rest (codes "}") then some s else none

-- The string behind `opening`, if `}` is what stands behind the string.
unfoldable pub field : List ℕ → List ℕ → Option (List ℕ)
field opening payload =
    if starts_with payload opening
    then closed (read_string (drop (length opening) payload))
    else none

-- `JSON.parse(payload)` on the objects that the server sends.
unfoldable pub parse : List ℕ → Option Event
parse payload = elim (field (codes "{\"chunk\": \"") payload) [
  | some s ↦ some (chunk s)
  | none ↦ elim (field (codes "{\"error\": \"") payload) [
    | some s ↦ some (error s)
    | none ↦ if same_text payload (codes "{\"done\": true}") then some done else none
  ]
]

-- The text so far, the error shown last, and whether the reader was cancelled.
pub record Answer : Type 0 where
  pub full_content : List ℕ
  pub shown_error : Option (List ℕ)
  pub cancelled : Bool

abbrev pub no_answer : Answer
no_answer = record { full_content = []; shown_error = none; cancelled = false }

-- What one line does: nothing, or more text; or it ends the loop over the lines at hand.
pub data Action : Type 0 where
  skip : Action
  more : List ℕ → Action
  stop : Action
  stop_error : List ℕ → Action
  cancel : Action

-- An empty text is false, so that an event with it does nothing.
abbrev event_action : Option Event → Action
event_action none = skip
event_action (some (chunk [])) = skip
event_action (some (chunk (c ∷ s))) = more (c ∷ s)
event_action (some done) = stop
event_action (some (error [])) = skip
event_action (some (error (c ∷ s))) = stop_error (c ∷ s)

unfoldable pub line_action : List ℕ → Action
line_action line =
    if starts_with line (codes "data: ")
    then (let payload = trim (drop 6 line) in
        if same_text payload (codes "[DONE]") then cancel else event_action (parse payload))
    else skip

-- The loop over the lines at hand.
unfoldable pub handle_lines : List (List ℕ) → Answer → Answer
handle_lines [] a = a
handle_lines (line ∷ lines) a = elim (line_action line) [
  | skip ↦ handle_lines lines a
  | more s ↦ handle_lines lines (record a { full_content = a.full_content ++ s })
  | stop ↦ a
  | stop_error e ↦ record a { shown_error = some e }
  | cancel ↦ record a { cancelled = true }
]

-- `lines.pop()`: the other parts, and the last one.
abbrev pop : List (List ℕ) → List (List ℕ) × List ℕ
pop [] = ([], [])
pop (p ∷ []) = ([], p)
pop (p ∷ q ∷ ps) = let (lines, last) = pop (q ∷ ps) in (p ∷ lines, last)

-- The loop over the reads, each with what it brought, as far as they go. It ends when the reader
-- was cancelled, and waits for the next read otherwise.
unfoldable pub read_loop : List (List ℕ) → List ℕ → Answer → Answer
read_loop [] buf a = a
read_loop (value ∷ reads) buf a =
    let (lines, rest) = pop (split_on 10 (buf ++ value)) in
    let b = handle_lines lines a in if b.cancelled then b else read_loop reads rest b

unfoldable pub receive : List (List ℕ) → Answer
receive reads = read_loop reads [] no_answer
