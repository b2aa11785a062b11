-- ===== src/Web/Chat/Actions.antt =====
-- web/ai-chat.js and server.py: what the page does on the lines that the server writes.
use mathlib.Core.List.{append_assoc}
use cppcourse.Base.{ℕ, ◌≡◌, refl, sym, ap, ◌∙◌, arith, false, List, [], ◌∷◌, ◌++◌, some}
use cppcourse.Base.Text.{codes, starts_with}
use cppcourse.Base.Strings.{same_text, starts_with-append, drop-length_append, Lacks, Lacks-append}
use cppcourse.Base.Json.{escape, read_string, read_string-escape, escape-Lacks}
use cppcourse.Server.Mentor.{Event, chunk, done, error, dumps}
use cppcourse.Web.Chat.{
  is_space, trim_end, trim, parse, field, closed, skip, cancel, event_action, line_action,
}

trim_end-append : (s : List ℕ) (d : ℕ) → is_space d ≡ false → trim_end (s ++ d ∷ []) ≡ s ++ d ∷ []
trim_end-append [] d h = rw h refl
trim_end-append (c ∷ []) d h = rw h refl
trim_end-append (c ∷ b ∷ s) d h = rw (trim_end-append (b ∷ s) d h) refl

-- A text between two characters that are no white space.
trim_wrapped :
    (c d : ℕ) (s : List ℕ)
    → is_space c ≡ false
    → is_space d ≡ false
    → trim (c ∷ s ++ d ∷ []) ≡ c ∷ s ++ d ∷ []
unfolding trim
trim_wrapped c d s h k = rw h (trim_end-append (c ∷ s) d k)

trim_of :
    (c d : ℕ) (s t : List ℕ)
    → is_space c ≡ false
    → is_space d ≡ false
    → t ≡ c ∷ s ++ d ∷ []
    → trim t ≡ t
trim_of c d s t h k e = ap trim e ∙ trim_wrapped c d s h k ∙ sym e

trim_string :
    (opening s : List ℕ)
    → trim (b'{' ∷ opening ++ (escape s ++ codes "\"}"))
      ≡ b'{' ∷ opening ++ (escape s ++ codes "\"}")
trim_string opening s = trim_of b'{' b'}' (opening ++ (escape s ++ codes "\"")) _ refl refl (
    ap (λ l. b'{' ∷ opening ++ l) (sym (append_assoc (escape s) (codes "\"") (codes "}")))
    ∙ ap (λ l. b'{' ∷ l) (sym (append_assoc opening (escape s ++ codes "\"") (codes "}"))))

trim-dumps : (e : Event) → trim (dumps e) ≡ dumps e
unfolding dumps trim
trim-dumps (chunk s) = trim_string (codes "\"chunk\": \"") s
trim-dumps done = refl
trim-dumps (error s) = trim_string (codes "\"error\": \"") s

field_of : (opening t : List ℕ) → field opening (opening ++ t) ≡ closed (read_string t)
unfolding field
field_of opening t = rw (starts_with-append opening t, drop-length_append opening t) refl

field-escape : (opening s : List ℕ) → field opening (opening ++ (escape s ++ codes "\"}")) ≡ some s
field-escape opening s =
    field_of opening (escape s ++ codes "\"}") ∙ ap closed (read_string-escape s (codes "}"))

parse-dumps : (e : Event) → parse (dumps e) ≡ some e
unfolding parse dumps field starts_with
parse-dumps (chunk s) = rw (field-escape (codes "{\"chunk\": \"") s, parse) refl
parse-dumps done = refl
parse-dumps (error s) = rw (field-escape (codes "{\"error\": \"") s, parse) refl

abbrev pub data_line : Event → List ℕ
data_line e = codes "data: " ++ dumps e

not_mark : (e : Event) → same_text (dumps e) (codes "[DONE]") ≡ false
unfolding dumps
not_mark (chunk s) = refl
not_mark done = refl
not_mark (error s) = refl

pub line_action-data_line : (e : Event) → line_action (data_line e) ≡ event_action (some e)
unfolding line_action starts_with
line_action-data_line e = rw (trim-dumps e, not_mark e, parse-dumps e) refl

pub line_action-mark : line_action (codes "data: [DONE]") ≡ cancel
unfolding line_action trim starts_with
line_action-mark = refl

pub line_action-nil : line_action [] ≡ skip
unfolding line_action starts_with
line_action-nil = refl

string-Lacks : (s : List ℕ) → Lacks 10 (escape s ++ codes "\"}")
string-Lacks s = Lacks-append 10 (escape s) (codes "\"}") (escape-Lacks s) (omega arith)

dumps-Lacks : (e : Event) → Lacks 10 (dumps e)
unfolding dumps
dumps-Lacks (chunk s) = Lacks-append 10 (codes "{\"chunk\": \"") _ (omega arith) (string-Lacks s)
dumps-Lacks done = omega arith
dumps-Lacks (error s) = Lacks-append 10 (codes "{\"error\": \"") _ (omega arith) (string-Lacks s)

pub data_line-Lacks : (e : Event) → Lacks 10 (data_line e)
data_line-Lacks e = Lacks-append 10 (codes "data: ") (dumps e) (omega arith) (dumps-Lacks e)
