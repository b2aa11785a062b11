-- ===== src/Web/Chat/Ending.antt =====
-- web/ai-chat.js and server.py together: whether the page stops to read.
use mathlib.Core.List.{append_assoc, append-nil}
use cppcourse.Base.{
  ℕ, ◌≡◌, refl, sym, ap, ◌∙◌, arith, inl, inr, true, false, Bool, List, [], ◌∷◌, ◌++◌, Bool-cases,
  if◌then◌else◌,
}
use cppcourse.Base.Strings.{Lacks, split_on}
use cppcourse.Base.Text.{starts_with}
use cppcourse.Server.Mentor.{
  Line, dumps, Stop, Event, chunk, done, error, events, send_event, send_all, done_mark,
}
use cppcourse.Web.Chat.{
  Answer, no_answer, Action, skip, more, stop, stop_error, cancel, line_action, handle_lines,
  read_loop, receive, trim, parse, field,
}
use cppcourse.Web.Chat.Actions.{data_line, line_action-data_line, line_action-mark, line_action-nil}
use cppcourse.Web.Chat.Cuts.{unlines, AllLack, AllLack-right, cut, unlines_lacking}
use cppcourse.Web.Chat.Delivery.{joined}
use cppcourse.Web.Chat.Arrival.{mark_line, event_lines, unlines-event_lines, event_lines-AllLack}

abbrev cancels : Action → Bool
cancels skip = false
cancels (more s) = false
cancels stop = false
cancels (stop_error e) = false
cancels cancel = true

abbrev AllQuiet : List (List ℕ) → Type 0
AllQuiet [] = Unit {0}
AllQuiet (l ∷ ls) = (cancels (line_action l) ≡ false) × AllQuiet ls

AllQuiet-right : (a b : List (List ℕ)) → AllQuiet (a ++ b) → AllQuiet b
AllQuiet-right [] b h = h
AllQuiet-right (l ∷ a) b (k, h) = AllQuiet-right a b h

handle_lines-going :
    (a b : List (List ℕ)) (c : Answer)
    → AllQuiet (a ++ b)
    → c.cancelled ≡ false
    → (handle_lines a c).cancelled ≡ false
unfolding handle_lines
handle_lines-going [] b c q h = h
handle_lines-going (l ∷ a) b c (k, q) h =
    go (line_action l) refl k (λ c' h'. handle_lines-going a b c' q h')
  where
    go :
        (act : Action)
        → line_action l ≡ act
        → cancels act ≡ false
        → ((c' : Answer) → c'.cancelled ≡ false → (handle_lines a c').cancelled ≡ false)
        → (handle_lines (l ∷ a) c).cancelled ≡ false
    go skip e k rest = rw (e, handle_lines) (rest c h)
    go (more t) e k rest =
        rw (e, handle_lines) (rest (record c { full_content = c.full_content ++ t }) h)
    go stop e k rest = rw (e, handle_lines) h
    go (stop_error t) e k rest = rw (e, handle_lines) h
    go cancel e k rest = cc

-- Behind whole lines that do not cancel, the client has read on and has an empty buffer.
pass :
    (xs ys : List (List ℕ)) (ls : List (List ℕ)) (buf : List ℕ) (c : Answer)
    → AllLack ls
    → AllQuiet ls
    → Lacks 10 buf
    → c.cancelled ≡ false
    → buf ++ joined xs ≡ unlines ls
    → (d : Answer) × (d.cancelled ≡ false) × (read_loop (xs ++ ys) buf c ≡ read_loop ys [] d)
unfolding read_loop
pass [] ys ls buf c k q h going e =
    let at_end = sym (append-nil buf) ∙ e in
    let nothing : buf ≡ [] = at_end ∙ ap unlines (unlines_lacking ls buf h at_end) in
    (c, going, ap (λ b. read_loop ys b c) nothing)
pass (v ∷ xs) ys ls buf c k q h going e =
    let (a, b, r, whole, popped, lacks, rest) =
      cut ls (buf ++ v) (joined xs) k (append_assoc buf v (joined xs) ∙ e) in
    let on = handle_lines-going a b c (rw (← whole) q) going in
    let (d, going', same) =
      pass xs ys b r (handle_lines a c) (AllLack-right a b (rw (← whole) k))
        (AllQuiet-right a b (rw (← whole) q)) lacks on rest in
    (d, going', rw popped (simp on same))

-- The lines of one read of a text that starts with the mark: none, or the mark before others.
first_lines :
    (a b ms ys : List (List ℕ)) (r : List ℕ) (d : Answer)
    → mark_line ∷ ms ≡ a ++ b
    → (mark_line ∷ ms ≡ b → (read_loop ys r d).cancelled ≡ true)
    → (if (handle_lines a d).cancelled
        then handle_lines a d
        else read_loop ys r (handle_lines a d)).cancelled
      ≡ true
unfolding handle_lines
first_lines [] b ms ys r d whole rest = elim (Bool-cases d.cancelled) [
  | inl e ↦ simp e refl
  | inr e ↦ simp e (rest whole)
]
first_lines (l ∷ a) b ms ys r d whole rest =
    let same : l ≡ mark_line = cc in
    let acts : line_action l ≡ cancel = ap line_action same ∙ line_action-mark in
    rw (acts, handle_lines) refl

-- Reads that bring a text which starts with the mark end the loop.
marked :
    (ys ms : List (List ℕ)) (buf : List ℕ) (d : Answer)
    → AllLack (mark_line ∷ ms)
    → Lacks 10 buf
    → buf ++ joined ys ≡ unlines (mark_line ∷ ms)
    → (read_loop ys buf d).cancelled ≡ true
unfolding read_loop
marked [] ms buf d k h e =
    let none_left = unlines_lacking (mark_line ∷ ms) buf h (sym (append-nil buf) ∙ e) in cc
marked (v ∷ ys) ms buf d k h e =
    let (a, b, r, whole, popped, lacks, rest) =
      cut (mark_line ∷ ms) (buf ++ v) (joined ys) k (append_assoc buf v (joined ys) ∙ e) in
    rw popped (
      first_lines a b ms ys r d whole
        (λ same. marked ys ms r d k lacks (rest ∙ ap unlines (sym same))))

event-quiet : (e : Event) → cancels (line_action (data_line e)) ≡ false
event-quiet (chunk []) = rw (line_action-data_line (chunk [])) refl
event-quiet (chunk (c ∷ t)) = rw (line_action-data_line (chunk (c ∷ t))) refl
event-quiet done = rw (line_action-data_line done) refl
event-quiet (error []) = rw (line_action-data_line (error [])) refl
event-quiet (error (c ∷ t)) = rw (line_action-data_line (error (c ∷ t))) refl

event_lines-AllQuiet : (es : List Event) → AllQuiet (event_lines es)
event_lines-AllQuiet [] = tt
event_lines-AllQuiet (e ∷ es) = (event-quiet e, (rw line_action-nil refl, event_lines-AllQuiet es))

-- Behind the reads of all events the client has an empty buffer and reads on.
pass_events :
    (es : List Event) (xs ys : List (List ℕ))
    → joined xs ≡ send_all es
    → (d : Answer) × (d.cancelled ≡ false) × (read_loop (xs ++ ys) [] no_answer ≡ read_loop ys [] d)
pass_events es xs ys e =
    let lines = unlines-event_lines es [] ∙ append-nil (send_all es) in
    let all = append-nil (event_lines es) in
    pass xs ys (event_lines es) [] no_answer (rw (← all) (event_lines-AllLack es [] tt))
      (event_lines-AllQuiet es) tt refl (e ∙ sym lines ∙ ap unlines all)

-- If no read brings both a part of the events and a part of the mark, the page ends to read when all has come.
pub receive-ends :
    (lines : List Line) (s : Stop) (xs ys : List (List ℕ))
    → joined xs ≡ send_all (events lines s)
    → joined ys ≡ done_mark
    → (receive (xs ++ ys)).cancelled ≡ true
unfolding receive
receive-ends lines s xs ys e f =
    let (d, going, same) = pass_events (events lines s) xs ys e in
    ap (λ (a : Answer). a.cancelled) same ∙ marked ys ([] ∷ []) [] d (omega arith, (tt, tt)) tt f

last_apart :
    (c : Answer)
    → c.cancelled ≡ false
    → (read_loop (send_event done ∷ done_mark ∷ []) [] c).cancelled ≡ true
unfolding read_loop handle_lines line_action trim parse field split_on starts_with send_event dumps
last_apart c h = simp h refl

last_together :
    (c : Answer)
    → c.cancelled ≡ false
    → (read_loop ((send_event done ++ done_mark) ∷ []) [] c).cancelled ≡ false
unfolding read_loop handle_lines line_action trim parse field split_on starts_with send_event dumps
last_together c h = simp h refl

-- Whether the page ends to read after a last event `done` depends on the reads: it does if the event and
-- the mark come apart, and goes on waiting if one read brings both.
pub receive-done :
    (es : List Event) (xs : List (List ℕ))
    → joined xs ≡ send_all es
    → ((receive (xs ++ send_event done ∷ done_mark ∷ [])).cancelled ≡ true)
      × ((receive (xs ++ (send_event done ++ done_mark) ∷ [])).cancelled ≡ false)
unfolding receive
receive-done es xs e =
    let (c, going, same) = pass_events es xs (send_event done ∷ done_mark ∷ []) e in
    let (d, going', same') = pass_events es xs ((send_event done ++ done_mark) ∷ []) e in
    (
      ap (λ (a : Answer). a.cancelled) same ∙ last_apart c going,
      ap (λ (a : Answer). a.cancelled) same' ∙ last_together d going',
    )
