-- ===== src/Debugging/Buffers.antt =====
-- content/exercises/f4/01-asan-hunt/starter.c: four functions on buffers, three of them with a
-- defect. `none` is an access out of a block or through NULL, or an overflow of `int`.
pub mod Words
pub mod Fill
pub mod Copies
use cppcourse.Base.{
  ℕ, zero, suc, ◌+◌, ◌-◌, ◌*◌, ◌%◌, ◌^◌, ◌==◌, leb, ltb, ◌&&◌, Bool, List, [], ◌∷◌, Option, none,
  some, length, replicate, get_elem?, take,
}
use cppcourse.Base.{if◌then◌else◌}
use cppcourse.Base.Checked.{◌>>=◌, store}
use cppcourse.Base.Int.{to_int, ℤ, pos, negsuc, ltb_ℤ, int}
use cppcourse.Base.Text.{c_str}

-- `toupper` of a byte in the "C" locale.
abbrev pub toupper : ℕ → ℕ
toupper c = if leb b'a' c && leb c b'z' then c - 32 else c

-- The `for` loop at `i`, with `len - i` rounds left.
unfoldable pub upper_loop : ℕ → ℕ → List ℕ → List ℕ → Option (List ℕ)
upper_loop zero i s buf = some buf
upper_loop (suc left) i s buf = do
  c ← get_elem? s i
  buf' ← store buf i (toupper c)
  upper_loop left (i + 1) s buf'

-- The flag says whether `malloc` succeeds. What a new block holds is not specified; it is zeros here.
unfoldable pub str_upper : Bool → List ℕ → Option (List ℕ)
str_upper memory s =
    let len = length (c_str s) in
    if memory then (do buf ← upper_loop len 0 s (replicate len 0); store buf len 0) else none

-- `strtok` with the delimiter " ": the next token and the text behind it.
unfoldable pub skip_spaces : List ℕ → List ℕ
skip_spaces [] = []
skip_spaces (c ∷ s) = if c == b' ' then skip_spaces s else c ∷ s

unfoldable pub token_of : List ℕ → List ℕ
token_of [] = []
token_of (c ∷ s) = if c == b' ' then [] else c ∷ token_of s

unfoldable pub behind_token : List ℕ → List ℕ
behind_token [] = []
behind_token (c ∷ s) = if c == b' ' then s else behind_token s

abbrev pub strtok : List ℕ → Option (List ℕ × List ℕ)
strtok s =
    let start = skip_spaces s in
    if length start == 0 then none else some (token_of start, behind_token start)

-- The `while` loop. Each token takes at least one character, so the length of the text is enough.
unfoldable pub word_loop : ℕ → List ℕ → ℤ → ℤ
word_loop zero s max_len = max_len
word_loop (suc fuel) s max_len = elim (strtok s) [
  | none ↦ max_len
  | some (token, rest) ↦
      let len = to_int (length token) in
      word_loop fuel rest (if ltb_ℤ max_len len then len else max_len)
]

-- The copy is freed at the end; the flag says whether `strdup` succeeds.
unfoldable pub longest_word : Bool → List ℕ → Option ℤ
longest_word memory s =
    let copy = c_str s in if memory then some (word_loop (length copy) copy (pos 0)) else none

-- The loop at `i ≤ n`, with the rounds that are left; `sum` is a `long`.
unfoldable pub fill_loop : ℕ → ℕ → List ℤ → ℕ → Option (List ℤ × ℕ)
fill_loop zero i out sum = some (out, sum)
fill_loop (suc left) i out sum = do
  square ← int (pos (i * i))
  out' ← store out i square
  fill_loop left (i + 1) out' (sum + i * i)

unfoldable pub fill_squares : List ℤ → ℤ → Option (List ℤ × ℕ)
fill_squares out (pos n) = fill_loop (suc n) 0 out 0
fill_squares out (negsuc n) = some (out, 0)

-- The result of `find_max_ptr`: NULL, or the place of an element in a block that is freed.
pub data Pointer : Type 0 where
  null : Pointer
  freed : ℕ → Pointer

unfoldable pub max_idx_loop : ℕ → ℕ → List ℤ → ℕ → Option ℕ
max_idx_loop zero i tmp max_idx = some max_idx
max_idx_loop (suc left) i tmp max_idx = do
  x ← get_elem? tmp i
  best ← get_elem? tmp max_idx
  max_idx_loop left (i + 1) tmp (if ltb_ℤ best x then i else max_idx)

-- The flag says whether `malloc` succeeds.
unfoldable pub find_max_ptr : Bool → List ℤ → ℤ → Option Pointer
find_max_ptr memory arr (negsuc n) = some null
find_max_ptr memory arr (pos zero) = some null
find_max_ptr memory arr (pos (suc n)) =
    if memory && leb (suc n) (length arr)
    then (do max_idx ← max_idx_loop n 1 (take (suc n) arr) 0; some (freed max_idx))
    else none
