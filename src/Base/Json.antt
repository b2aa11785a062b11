-- ===== src/Base/Json.antt =====
-- Strings in JSON as `json.dumps(…, ensure_ascii=False)` writes them and `JSON.parse` reads them, on texts
-- as lists of code points.
use Prim.Native.Nat.{ℕ, zero, suc, ◌+◌, ◌-◌, ◌*◌, ◌/◌, ◌%◌, ◌<◌}
use mathlib.Core.Path.{◌≡◌, refl, ap, ◌∙◌}
use mathlib.Core.List.{List, [], ◌∷◌, ◌++◌, append_assoc}
use mathlib.Core.Option.{Option, none, some}
use native.Mathlib.Omega.{arith}
use cppcourse.Base.Compare.{◌==◌, ltb, if◌then◌else◌}
use cppcourse.Base.Strings.{Lacks, Lacks-append}

-- A digit below 16, in lower case.
abbrev hex : ℕ → ℕ
hex d = if ltb d 10 then b'0' + d else b'a' + (d - 10)

abbrev unhex : ℕ → Option ℕ
unhex c =
    if ltb c b'0'
    then none
    else if ltb c (b'9' + 1)
    then some (c - b'0')
    else if ltb c b'a'
    then none
    else if ltb c (b'f' + 1)
    then some (c - b'a' + 10)
    else none

-- The letter behind the backslash of a short escape, if there is one.
abbrev short : ℕ → Option ℕ
short c =
    if c == b'"'
    then some b'"'
    else if c == b'\\'
    then some b'\\'
    else if c == 10
    then some b'n'
    else if c == 13
    then some b'r'
    else if c == 9
    then some b't'
    else if c == 8
    then some b'b'
    else if c == 12
    then some b'f'
    else none

unfoldable pub escape_char : ℕ → List ℕ
escape_char c = elim (short c) [
  | some l ↦ b'\\' ∷ l ∷ []
  | none ↦
      if ltb c 32 then b'\\' ∷ b'u' ∷ b'0' ∷ b'0' ∷ hex (c / 16) ∷ hex (c % 16) ∷ [] else c ∷ []
]

unfoldable pub escape : List ℕ → List ℕ
escape [] = []
escape (c ∷ s) = escape_char c ++ escape s

-- The code point that a short escape stands for.
abbrev unshort : ℕ → Option ℕ
unshort l =
    if l == b'n'
    then some 10
    else if l == b'r'
    then some 13
    else if l == b't'
    then some 9
    else if l == b'b'
    then some 8
    else if l == b'f'
    then some 12
    else if l == b'"'
    then some b'"'
    else if l == b'\\'
    then some b'\\'
    else if l == b'/'
    then some b'/'
    else none

abbrev prepend : ℕ → Option (List ℕ × List ℕ) → Option (List ℕ × List ℕ)
prepend c none = none
prepend c (some (s, rest)) = some (c ∷ s, rest)

abbrev prepend_if : Option ℕ → Option (List ℕ × List ℕ) → Option (List ℕ × List ℕ)
prepend_if none r = none
prepend_if (some c) r = prepend c r

-- Where a reader of a string stands: between characters, behind a backslash, or before the last of
-- so many digits of a code point of which it has the value so far.
pub data Mode : Type 0 where
  plain : Mode
  backslash : Mode
  digits : ℕ → ℕ → Mode

-- Behind an opening quote: the string, and what stands behind its closing quote. A control character in a
-- string is an error.
unfoldable pub read_from : Mode → List ℕ → Option (List ℕ × List ℕ)
read_from mode [] = none
read_from plain (c ∷ s) =
    let escaped = read_from backslash s in
    let rest = read_from plain s in
    if c == b'"'
    then some ([], s)
    else if c == b'\\'
    then escaped
    else if ltb c 32
    then none
    else prepend c rest
read_from backslash (l ∷ s) =
    let code = read_from (digits 3 0) s in
    let rest = read_from plain s in if l == b'u' then code else prepend_if (unshort l) rest
read_from (digits zero v) (d ∷ s) = elim (unhex d) [
  | none ↦ none
  | some x ↦ prepend (v * 16 + x) (read_from plain s)
]
read_from (digits (suc n) v) (d ∷ s) = elim (unhex d) [
  | none ↦ none
  | some x ↦ read_from (digits n (v * 16 + x)) s
]

unfoldable pub read_string : List ℕ → Option (List ℕ × List ℕ)
unfolding read_from
read_string s = read_from plain s

unhex-hex : (d : ℕ) → d < 16 → unhex (hex d) ≡ some d
unhex-hex d h = ground arith

-- A control character without a short escape.
read-control :
    (c : ℕ) (t : List ℕ)
    → c < 32
    → read_from plain (b'\\' ∷ b'u' ∷ b'0' ∷ b'0' ∷ hex (c / 16) ∷ hex (c % 16) ∷ t)
      ≡ prepend c (read_from plain t)
unfolding read_from
read-control c t h =
    let high = unhex-hex (c / 16) (omega arith) in
    let low = unhex-hex (c % 16) (omega arith) in
    let same : c / 16 * 16 + c % 16 ≡ c = omega arith in
    rw (high, low) (ap (λ n. prepend n (read_from plain t)) (omega arith))

read-escape_char :
    (c : ℕ) (t : List ℕ) → read_from plain (escape_char c ++ t) ≡ prepend c (read_from plain t)
unfolding read_from escape_char
read-escape_char c t = ground (arith, read-control c t)

-- What `escape` writes is read back, up to the closing quote.
pub read_string-escape : (s t : List ℕ) → read_string (escape s ++ b'"' ∷ t) ≡ some (s, t)
unfolding read_string escape
read_string-escape [] t = refl
read_string-escape (c ∷ s) t =
    ap (read_from plain) (append_assoc (escape_char c) (escape s) (b'"' ∷ t))
    ∙ read-escape_char c (escape s ++ b'"' ∷ t)
    ∙ ap (prepend c) (read_string-escape s t)

escape_char-Lacks : (c : ℕ) → Lacks 10 (escape_char c)
unfolding escape_char
escape_char-Lacks c =
    let high : 10 < hex (c / 16) = ground arith in
    let low : 10 < hex (c % 16) = ground arith in ground arith

-- An escaped string has no line end.
pub escape-Lacks : (s : List ℕ) → Lacks 10 (escape s)
unfolding escape
escape-Lacks [] = tt
escape-Lacks (c ∷ s) =
    Lacks-append 10 (escape_char c) (escape s) (escape_char-Lacks c) (escape-Lacks s)
