-- ===== src/Web/Tests/Answers.antt =====
-- web/ai-chat.js: answers of the mentor.
use cppcourse.Base.{ℕ, ◌≡◌, refl, sym, true, false, List, [], ◌∷◌, ◌++◌, take, drop}
use cppcourse.Base.Text.{codes}
use cppcourse.Base.Json.{escape, escape_char}
use cppcourse.Base.Strings.{same_text_apart}
use cppcourse.Server.Mentor.{
  Line, blank, malformed, reply, eof, Event, chunk, done, events, dumps, send_event, send_all,
  done_mark, stream_ollama_chat,
}
use cppcourse.Web.Chat.{receive}
use cppcourse.Web.History as History
use cppcourse.Web.History.{
  Stored, object, user, max_messages, last_messages, ai_load_history, run, open_chat,
}
use cppcourse.Web.History.{Chat, Histories}
use cppcourse.Web.History.Kept.{run-ai_load_history, run-ai_load_history_earlier}
use cppcourse.Base.{◌≤◌, length, arith, ltb, Bool}
use cppcourse.Web.Chat.Arrival.{receive-stream_ollama_chat}
use cppcourse.Web.Chat.Ending.{receive-done}

-- An answer with a quotation mark and a line feed in it, in two parts.
abbrev two_parts : List Line
two_parts =
    reply false (codes "say \"")
    ∷ blank
    ∷ reply false (codes "hi\n")
    ∷ malformed
    ∷ reply true []
    ∷ []

-- What is sent for it.
abbrev sent : List ℕ
sent =
    codes
      "data: {\"chunk\": \"say \\\"\"}\n\ndata: {\"chunk\": \"hi\\n\"}\n\ndata: {\"done\": true}\n\n"

two_parts-streamed : stream_ollama_chat two_parts eof ≡ sent ++ done_mark
unfolding stream_ollama_chat send_all events send_event dumps escape escape_char
two_parts-streamed = refl

-- Three reads that cut lines.
receive-stream_ollama_chat_example :
    (receive
      (take 10 sent ∷ take 40 (drop 10 sent) ∷ (drop 50 sent ++ done_mark) ∷ [])).full_content
    ≡ codes "say \"hi\n"
receive-stream_ollama_chat_example =
    receive-stream_ollama_chat two_parts eof
      (take 10 sent ∷ take 40 (drop 10 sent) ∷ (drop 50 sent ++ done_mark) ∷ [])
      (sym two_parts-streamed)

abbrev one_chunk : List Event
one_chunk = chunk (codes "hi") ∷ []

one_chunk-sent : send_event (chunk (codes "hi")) ++ [] ≡ send_all one_chunk
unfolding send_all send_event dumps escape escape_char
one_chunk-sent = refl

receive-done_example :
    ((receive (send_event (chunk (codes "hi")) ∷ send_event done ∷ done_mark ∷ [])).cancelled
      ≡ true)
    × ((receive (send_event (chunk (codes "hi")) ∷ (send_event done ++ done_mark) ∷ [])).cancelled
        ≡ false)
receive-done_example = receive-done one_chunk (send_event (chunk (codes "hi")) ∷ []) one_chunk-sent

-- The history of another module, and none of the one at hand.
abbrev kept_before : Stored
kept_before = object ((codes "f1", record { role = user; content = codes "why" } ∷ []) ∷ [])

abbrev a_talk : List History.Event
a_talk = History.send (codes "hi") ∷ History.answer (codes "yes") ∷ History.send (codes "so") ∷ []

-- A browser that takes all, and one with room for one history.
abbrev takes_all : Histories → Bool
takes_all all = true

abbrev takes_one : Histories → Bool
takes_one all = ltb (length all) 2

run-ai_load_history_example :
    let c = run takes_all (codes "k1") a_talk (open_chat (codes "k1") kept_before) in
    (ai_load_history (codes "k1") c.storage ≡ last_messages c.messages)
    × (length (ai_load_history (codes "k1") c.storage) ≤ max_messages)
    × (ai_load_history (codes "f1") c.storage ≡ ai_load_history (codes "f1") kept_before)
unfolding ai_load_history
run-ai_load_history_example =
    run-ai_load_history takes_all (codes "k1") (codes "f1") kept_before a_talk (λ all. refl)
      (same_text_apart (codes "f1") (codes "k1") refl) tt (omega arith)

run-ai_load_history_earlier_example :
    let c = run takes_one (codes "k1") a_talk (open_chat (codes "k1") kept_before) in
    ((k : ℕ) × (ai_load_history (codes "k1") c.storage
        ≡ last_messages
            (run takes_one
              (codes "k1")
              (take k a_talk)
              (open_chat (codes "k1") kept_before)).messages))
    × (length (ai_load_history (codes "k1") c.storage) ≤ max_messages)
    × (ai_load_history (codes "f1") c.storage ≡ ai_load_history (codes "f1") kept_before)
unfolding ai_load_history
run-ai_load_history_earlier_example =
    run-ai_load_history_earlier takes_one (codes "k1") (codes "f1") kept_before a_talk
      (same_text_apart (codes "f1") (codes "k1") refl) tt (omega arith)

-- A question has been asked.
abbrev waiting : Chat
waiting = record {
  messages = record { role = user; content = codes "hi" } ∷ [];
  is_streaming = true;
  storage = kept_before;
}
