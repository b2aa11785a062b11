-- ===== src/Debugging/Buffers/Words.antt =====
-- The longest word of a text, and the upper case copy.
use cppcourse.Base.{
  ℕ, zero, suc, ◌≤◌, ◌<◌, ◌^◌, ◌≡◌, refl, ◌∙◌, arith, ◌==◌, List, [], ◌∷◌, some, length, true, inl,
  inr, Bool-cases, if◌then◌else◌,
}
use Prim.Native.Nat.{max}
use cppcourse.Base.{◌-◌, ap, ==_iff}
use cppcourse.Base.Int.{to_int_small, ltb_ℤ}
use cppcourse.Base.Int.{pos}
use cppcourse.Base.Text.{c_str}
use cppcourse.Debugging.Buffers.{skip_spaces, token_of, behind_token, word_loop, longest_word}

-- How far the text goes on without a space.
unfoldable pub run_length : List ℕ → ℕ
run_length [] = 0
run_length (c ∷ s) = if c == b' ' then 0 else suc (run_length s)

-- The longest such stretch from any place in the text.
unfoldable pub longest : List ℕ → ℕ
longest [] = 0
longest (c ∷ s) = max (run_length (c ∷ s)) (longest s)

length-token_of : (s : List ℕ) → length (token_of s) ≡ run_length s
unfolding token_of run_length
length-token_of [] = refl
length-token_of (c ∷ s) = ground (arith, length-token_of s)

longest-skip_spaces : (s : List ℕ) → longest (skip_spaces s) ≡ longest s
unfolding skip_spaces longest run_length
longest-skip_spaces [] = refl
longest-skip_spaces (c ∷ s) = elim (Bool-cases (c == b' ')) [
  | inl e ↦ rw e (longest-skip_spaces s ∙ omega arith)
  | inr e ↦ rw (e, e)
]

longest-behind_token : (s : List ℕ) → longest s ≡ max (run_length s) (longest (behind_token s))
unfolding behind_token longest run_length
longest-behind_token [] = omega arith
longest-behind_token (c ∷ s) = elim (Bool-cases (c == b' ')) [
  | inl e ↦ rw e
  | inr e ↦ rw e (omega (arith, longest-behind_token s))
]

run_length-le : (s : List ℕ) → run_length s ≤ length s
unfolding run_length
run_length-le [] = omega arith
run_length-le (c ∷ s) = ground (arith, run_length-le s)

length-skip_spaces : (s : List ℕ) → length (skip_spaces s) ≤ length s
unfolding skip_spaces
length-skip_spaces [] = omega arith
length-skip_spaces (c ∷ s) = ground (arith, length-skip_spaces s)

length-behind_token : (s : List ℕ) → length (behind_token s) ≤ length s - 1
unfolding behind_token
length-behind_token [] = omega arith
length-behind_token (c ∷ []) = ground arith
length-behind_token (c ∷ d ∷ s) = ground (arith, length-behind_token (d ∷ s))

longest_zero : (s : List ℕ) → length s ≡ 0 → longest s ≡ 0
unfolding longest
longest_zero [] h = refl
longest_zero (c ∷ s) h = absurd (omega arith)

larger_pos : (m n : ℕ) → (if ltb_ℤ (pos m) (pos n) then pos n else pos m) ≡ pos (max m n)
larger_pos m n = ground arith

word_loop_lem :
    (fuel m : ℕ) (s : List ℕ)
    → length s ≤ fuel
    → length s < 2 ^ 31
    → word_loop fuel s (pos m) ≡ pos (max m (longest s))
unfolding word_loop
word_loop_lem zero m s h small = ap pos (omega (arith, longest_zero s (omega arith)))
word_loop_lem (suc fuel) m s h small =
    let start = skip_spaces s in
    let shorter = length-skip_spaces s in
    let same = longest-skip_spaces s in
    elim (Bool-cases (length start == 0)) [
      | inl e ↦
          rw (e, word_loop) (ap pos (omega (arith, same, longest_zero start ((==_iff _ 0).0 e))))
      | inr e ↦
          let token = length-token_of start in
          let fits : length (token_of start) < 2 ^ 31 =
            omega (arith, token, run_length-le start, shorter) in
          let rest = length-behind_token start in
          rw
            (
              e,
              word_loop,
              to_int_small (length (token_of start)) fits,
              larger_pos m (length (token_of start)),
            )
            (word_loop_lem fuel (max m (length (token_of start))) (behind_token start)
                (omega (arith, rest, shorter)) (omega (arith, rest, shorter))
              ∙ ap pos (omega (arith, same, longest-behind_token start, token)))
    ]

-- For a text of less than 2^31 characters whose copy is allocated, `longest_word` returns the length
-- of the longest stretch of it without a space.
pub longest_word_lem :
    (s : List ℕ) → length (c_str s) < 2 ^ 31 → longest_word true s ≡ some (pos (longest (c_str s)))
unfolding longest_word
longest_word_lem s small =
    ap some
      (word_loop_lem (length (c_str s)) 0 (c_str s) (omega arith) small ∙ ap pos (omega arith))
