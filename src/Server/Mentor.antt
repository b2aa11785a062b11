-- ===== src/Server/Mentor.antt =====
-- server.py: the mentor's chat. A text is the list of its code points.
use cppcourse.Base.{ℕ, ltb, Bool, true, false, List, [], ◌∷◌, ◌++◌, length, take, if◌then◌else◌}
use cppcourse.Base.Text.{codes}
use cppcourse.Base.Json.{escape}

-- A line of the answer of Ollama, stripped: an empty one, one that is no JSON, JSON on which the `get` calls
-- raise with that text, or an object by its `done` and the `content` of its `message`.
pub data Line : Type 0 where
  blank : Line
  malformed : Line
  no_object : List ℕ → Line
  reply : Bool → List ℕ → Line

-- How the answer ends behind its lines: regularly, or with an `URLError` of that reason (which is also how
-- an Ollama that does not answer looks, without any line), or with another exception of that text.
pub data Stop : Type 0 where
  eof : Stop
  url_error : List ℕ → Stop
  raised : List ℕ → Stop

-- The argument of `send_event`.
pub data Event : Type 0 where
  chunk : List ℕ → Event
  done : Event
  error : List ℕ → Event

abbrev is_empty : List ℕ → Bool
is_empty [] = true
is_empty (c ∷ s) = false

abbrev stop_events : Stop → List Event
stop_events eof = []
stop_events (url_error reason) = error (codes "Ollama недоступна: " ++ reason) ∷ []
stop_events (raised text) = error text ∷ []

-- The events that the loop over the lines, and the handlers of its exceptions, send.
unfoldable pub events : List Line → Stop → List Event
events [] stop = stop_events stop
events (blank ∷ lines) stop = events lines stop
events (malformed ∷ lines) stop = events lines stop
events (no_object text ∷ lines) stop = error text ∷ []
events (reply true content ∷ lines) stop = done ∷ []
events (reply false content ∷ lines) stop =
    let rest = events lines stop in if is_empty content then rest else chunk content ∷ rest

-- `json.dumps(data, ensure_ascii=False)`
unfoldable pub dumps : Event → List ℕ
dumps (chunk content) = codes "{\"chunk\": \"" ++ escape content ++ codes "\"}"
dumps done = codes "{\"done\": true}"
dumps (error text) = codes "{\"error\": \"" ++ escape text ++ codes "\"}"

unfoldable pub send_event : Event → List ℕ
send_event e = codes "data: " ++ dumps e ++ codes "\n\n"

abbrev pub done_mark : List ℕ
done_mark = codes "data: [DONE]\n\n"

unfoldable pub send_all : List Event → List ℕ
send_all [] = []
send_all (e ∷ es) = send_event e ++ send_all es

-- All that is written to the client, which stays connected.
unfoldable pub stream_ollama_chat : List Line → Stop → List ℕ
stream_ollama_chat lines stop = send_all (events lines stop) ++ done_mark

abbrev pub max_chars : ℕ
max_chars = 12000

-- The text of the module in the system prompt.
unfoldable pub shorten : List ℕ → List ℕ
shorten module_text =
    if ltb max_chars (length module_text)
    then take max_chars module_text ++ codes "\n\n[... текст сокращён ...]"
    else module_text
