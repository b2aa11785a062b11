-- ===== src/Web/Chat/Arrival.antt =====
-- web/ai-chat.js and server.py together: the answer of the mentor on the page.
use mathlib.Core.List.{append_assoc}
use cppcourse.Base.{ℕ, arith, ◌≡◌, refl, sym, ap, ◌∙◌, true, false, List, [], ◌∷◌, ◌++◌}
use cppcourse.Base.Text.{codes}
use cppcourse.Server.Mentor.{
  Line, blank, malformed, no_object, reply, Stop, eof, url_error, raised, Event, chunk, done, error,
  dumps, events, send_event, send_all, stream_ollama_chat,
}
use cppcourse.Web.Chat.{no_answer, receive}
use cppcourse.Web.Chat.Actions.{
  data_line, line_action-data_line, line_action-mark, line_action-nil, data_line-Lacks,
}
use cppcourse.Web.Chat.Cuts.{unlines, AllLack}
use cppcourse.Web.Chat.Delivery.{
  joined, read_loop-texts, Says, Says-skip, Says-more, Says-stop, Says-stop_error, Says-cancel,
}

-- What the model has said before the answer ends.
abbrev pub contents : List Line → List ℕ
contents [] = []
contents (blank ∷ lines) = contents lines
contents (malformed ∷ lines) = contents lines
contents (no_object text ∷ lines) = []
contents (reply true content ∷ lines) = []
contents (reply false content ∷ lines) = content ++ contents lines

abbrev event_text : Event → List ℕ
event_text (chunk s) = s
event_text done = []
event_text (error s) = []

abbrev pub mark_line : List ℕ
mark_line = codes "data: [DONE]"

abbrev pub event_lines : List Event → List (List ℕ)
event_lines [] = []
event_lines (e ∷ es) = data_line e ∷ [] ∷ event_lines es

abbrev pub mark_lines : List (List ℕ)
mark_lines = mark_line ∷ [] ∷ []

pub unlines-event_lines :
    (es : List Event) (ls : List (List ℕ))
    → unlines (event_lines es ++ ls) ≡ send_all es ++ unlines ls
unfolding send_all send_event
unlines-event_lines [] ls = refl
unlines-event_lines (e ∷ es) ls =
    ap (λ t. codes "data: " ++ t)
      (ap (λ t. dumps e ++ 10 ∷ 10 ∷ t) (unlines-event_lines es ls)
        ∙ sym (append_assoc (dumps e) (codes "\n\n") (send_all es ++ unlines ls))
        ∙ sym (append_assoc (dumps e ++ codes "\n\n") (send_all es) (unlines ls)))

pub event_lines-AllLack :
    (es : List Event) (ls : List (List ℕ)) → AllLack ls → AllLack (event_lines es ++ ls)
event_lines-AllLack [] ls h = h
event_lines-AllLack (e ∷ es) ls h = (data_line-Lacks e, (tt, event_lines-AllLack es ls h))

mark_lines-Says : Says mark_lines []
mark_lines-Says =
    Says-cancel mark_line ([] ∷ []) line_action-mark (Says-skip [] [] [] line_action-nil (refl, tt))

end-Says : Says ([] ∷ mark_lines) []
end-Says = Says-skip [] mark_lines [] line_action-nil mark_lines-Says

-- A last event that says nothing, and the mark.
last-Says : (e : Event) → event_text e ≡ [] → Says (event_lines (e ∷ []) ++ mark_lines) []
last-Says (chunk []) h =
    Says-skip (data_line (chunk [])) ([] ∷ mark_lines) [] (line_action-data_line (chunk []))
      end-Says
last-Says (chunk (c ∷ t)) h = cc
last-Says done h =
    Says-stop (data_line done) ([] ∷ mark_lines) (line_action-data_line done) end-Says
last-Says (error []) h =
    Says-skip (data_line (error [])) ([] ∷ mark_lines) [] (line_action-data_line (error []))
      end-Says
last-Says (error (c ∷ t)) h =
    Says-stop_error (data_line (error (c ∷ t))) (c ∷ t) ([] ∷ mark_lines)
      (line_action-data_line (error (c ∷ t))) end-Says

events-Says :
    (lines : List Line) (s : Stop)
    → Says (event_lines (events lines s) ++ mark_lines) (contents lines)
unfolding events
events-Says [] eof = mark_lines-Says
events-Says [] (url_error r) = last-Says (error (codes "Ollama недоступна: " ++ r)) refl
events-Says [] (raised t) = last-Says (error t) refl
events-Says (blank ∷ lines) s = events-Says lines s
events-Says (malformed ∷ lines) s = events-Says lines s
events-Says (no_object t ∷ lines) s = last-Says (error t) refl
events-Says (reply true content ∷ lines) s = last-Says done refl
events-Says (reply false [] ∷ lines) s = events-Says lines s
events-Says (reply false (c ∷ t) ∷ lines) s =
    let ls = event_lines (events lines s) ++ mark_lines in
    Says-more (data_line (chunk (c ∷ t))) (c ∷ t) ([] ∷ ls) (contents lines)
      (line_action-data_line (chunk (c ∷ t)))
      (Says-skip [] ls (contents lines) line_action-nil (events-Says lines s))

-- Whatever lines the model sends and however they end, and however what the server writes is cut into reads,
-- when all of it has come the page has exactly what the model said before its answer ended.
pub receive-stream_ollama_chat :
    (lines : List Line) (s : Stop) (reads : List (List ℕ))
    → joined reads ≡ stream_ollama_chat lines s
    → (receive reads).full_content ≡ contents lines
unfolding receive stream_ollama_chat
receive-stream_ollama_chat lines s reads e =
    let (said, settled) = events-Says lines s in
    read_loop-texts reads (event_lines (events lines s) ++ mark_lines) [] no_answer
      (event_lines-AllLack (events lines s) mark_lines ((omega arith), (tt, tt))) settled tt refl
      (e ∙ sym (unlines-event_lines (events lines s) mark_lines))
    ∙ said
