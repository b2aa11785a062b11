-- ===== src/Web/Chat/Delivery.antt =====
-- web/ai-chat.js: the text that has arrived, however it is cut into reads.
use mathlib.Core.List.{append_assoc, append-nil}
use cppcourse.Base.{
  ℕ, ◌≡◌, refl, sym, ap, ◌∙◌, inl, inr, true, false, Bool, List, [], ◌∷◌, ◌++◌, if◌then◌else◌,
  Bool-cases,
}
use cppcourse.Base.Strings.{Lacks}
use cppcourse.Web.Chat.{
  Answer, Action, skip, more, stop, stop_error, cancel, line_action, handle_lines, read_loop,
}
use cppcourse.Web.Chat.Cuts.{unlines, AllLack, AllLack-right, cut, unlines_lacking}

abbrev said : Action → List ℕ
said skip = []
said (more s) = s
said stop = []
said (stop_error e) = []
said cancel = []

abbrev goes_on : Action → Bool
goes_on skip = true
goes_on (more s) = true
goes_on stop = false
goes_on (stop_error e) = false
goes_on cancel = false

-- What the lines say together.
abbrev pub texts : List (List ℕ) → List ℕ
texts [] = []
texts (l ∷ ls) = said (line_action l) ++ texts ls

-- Behind a line that ends the loop over the lines at hand nothing is said.
abbrev pub Settled : List (List ℕ) → Type 0
Settled [] = Unit {0}
Settled (l ∷ ls) = if goes_on (line_action l) then Settled ls else (texts ls ≡ [])

nil-left : (s t : List ℕ) → s ++ t ≡ [] → s ≡ []
nil-left [] t h = refl
nil-left (x ∷ s) t h = cc

nil-right : (s t : List ℕ) → s ++ t ≡ [] → t ≡ []
nil-right [] t h = h
nil-right (x ∷ s) t h = cc

texts-append : (a b : List (List ℕ)) → texts (a ++ b) ≡ texts a ++ texts b
texts-append [] b = refl
texts-append (l ∷ a) b =
    ap (λ t. said (line_action l) ++ t) (texts-append a b)
    ∙ sym (append_assoc (said (line_action l)) (texts a) (texts b))

Settled-nil : (ls : List (List ℕ)) → texts ls ≡ [] → Settled ls
Settled-nil [] h = tt
Settled-nil (l ∷ ls) h =
    let rest = nil-right (said (line_action l)) (texts ls) h in
    elim (Bool-cases (goes_on (line_action l))) [
      | inl e ↦ rw e (Settled-nil ls rest)
      | inr e ↦ rw e rest
    ]

-- What the loop over the lines `a` has made of `c`, if the lines `b` are to come.
abbrev Told : List (List ℕ) → List (List ℕ) → Answer → Answer → Type 0
Told a b c d =
    (d.full_content ≡ c.full_content ++ texts a)
    × Settled b
    × (c.cancelled ≡ false → d.cancelled ≡ true → texts b ≡ [])

handle_lines-Told :
    (a b : List (List ℕ)) (c : Answer) → Settled (a ++ b) → Told a b c (handle_lines a c)
unfolding handle_lines
handle_lines-Told [] b c s = (sym (append-nil c.full_content), s, λ e f. cc)
handle_lines-Told (l ∷ a) b c s = go (line_action l) refl s (λ c' s'. handle_lines-Told a b c' s')
  where
    ends : texts (a ++ b) ≡ [] → (texts a ≡ []) × (texts b ≡ [])
    ends h =
        let h' = sym (texts-append a b) ∙ h in
        (nil-left (texts a) (texts b) h', nil-right (texts a) (texts b) h')

    go :
        (act : Action)
        → line_action l ≡ act
        → (if goes_on act then Settled (a ++ b) else (texts (a ++ b) ≡ []))
        → ((c' : Answer) → Settled (a ++ b) → Told a b c' (handle_lines a c'))
        → Told (l ∷ a) b c (handle_lines (l ∷ a) c)
    go skip e s rest = rw (e, handle_lines) (rest c s)
    go (more t) e s rest =
        let d = record c { full_content = c.full_content ++ t } in
        let (text, settled, quiet) = rest d s in
        rw (e, handle_lines) (text ∙ append_assoc c.full_content t (texts a), settled, quiet)
    go stop e s rest =
        let (left, right) = ends s in
        rw (e, handle_lines)
          (rw left (sym (append-nil c.full_content)), Settled-nil b right, λ p q. right)
    go (stop_error t) e s rest =
        let (left, right) = ends s in
        rw (e, handle_lines)
          (rw left (sym (append-nil c.full_content)), Settled-nil b right, λ p q. right)
    go cancel e s rest =
        let (left, right) = ends s in
        rw (e, handle_lines)
          (rw left (sym (append-nil c.full_content)), Settled-nil b right, λ p q. right)

-- The lines say this, and are settled.
abbrev pub Says : List (List ℕ) → List ℕ → Type 0
Says ls t = (texts ls ≡ t) × Settled ls

pub Says-skip :
    (l : List ℕ) (ls : List (List ℕ)) (t : List ℕ)
    → line_action l ≡ skip
    → Says ls t
    → Says (l ∷ ls) t
Says-skip l ls t e h = rw e h

pub Says-more :
    (l s : List ℕ) (ls : List (List ℕ)) (t : List ℕ)
    → line_action l ≡ more s
    → Says ls t
    → Says (l ∷ ls) (s ++ t)
Says-more l s ls t e h = rw e (ap (λ r. s ++ r) h.0, h.1)

pub Says-stop :
    (l : List ℕ) (ls : List (List ℕ)) → line_action l ≡ stop → Says ls [] → Says (l ∷ ls) []
Says-stop l ls e h = rw e (h.0, h.0)

pub Says-stop_error :
    (l t : List ℕ) (ls : List (List ℕ))
    → line_action l ≡ stop_error t
    → Says ls []
    → Says (l ∷ ls) []
Says-stop_error l t ls e h = rw e (h.0, h.0)

pub Says-cancel :
    (l : List ℕ) (ls : List (List ℕ)) → line_action l ≡ cancel → Says ls [] → Says (l ∷ ls) []
Says-cancel l ls e h = rw e (h.0, h.0)

abbrev pub joined : List (List ℕ) → List ℕ
joined [] = []
joined (v ∷ vs) = v ++ joined vs

-- A client that has read whole lines which are settled has what they say, however they were cut, if all
-- of them has come.
pub read_loop-texts :
    (reads : List (List ℕ)) (ls : List (List ℕ)) (buf : List ℕ) (c : Answer)
    → AllLack ls
    → Settled ls
    → Lacks 10 buf
    → c.cancelled ≡ false
    → buf ++ joined reads ≡ unlines ls
    → (read_loop reads buf c).full_content ≡ c.full_content ++ texts ls
unfolding read_loop
read_loop-texts [] ls buf c k s h going e =
    let none_left = unlines_lacking ls buf h (sym (append-nil buf) ∙ e) in
    rw none_left (sym (append-nil c.full_content))
read_loop-texts (v ∷ reads) ls buf c k s h going e =
    let (a, b, r, whole, popped, lacks, rest) =
      cut ls (buf ++ v) (joined reads) k (append_assoc buf v (joined reads) ∙ e) in
    let (text, settled, quiet) = handle_lines-Told a b c (rw (← whole) s) in
    let parts : texts a ++ texts b ≡ texts ls = sym (texts-append a b) ∙ ap texts (sym whole) in
    elim (Bool-cases (handle_lines a c).cancelled) [
      | inl f ↦ rw popped (
          simp f (
            text
            ∙ ap (λ t. c.full_content ++ t)
                (sym (append-nil (texts a))
                  ∙ ap (λ t. texts a ++ t) (sym (quiet going f))
                  ∙ parts)))
      | inr f ↦ rw popped (
          simp f (
            read_loop-texts reads b r (handle_lines a c) (AllLack-right a b (rw (← whole) k))
              settled lacks f rest
            ∙ ap (λ t. t ++ texts b) text
            ∙ append_assoc c.full_content (texts a) (texts b)
            ∙ ap (λ t. c.full_content ++ t) parts))
    ]
