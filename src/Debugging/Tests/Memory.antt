-- ===== src/Debugging/Tests/Memory.antt =====
-- Runs of the programs about buffers and allocations.
use cppcourse.Base.{
  ℕ, ◌+◌, ◌≡◌, refl, arith, List, [], ◌∷◌, some, none, length, true, replicate, take,
}
use cppcourse.Base.Text.{codes, c_str}
use cppcourse.Base.Int.{ℤ, pos}
use cppcourse.Debugging.Buffers.{
  upper_loop, str_upper, longest_word, find_max_ptr, freed, word_loop, skip_spaces, token_of,
  behind_token,
}
use cppcourse.Debugging.Buffers.Words.{longest, longest_word_lem}
use cppcourse.Debugging.Buffers.Copies.{Upper, FirstMax, str_upper_lem, find_max_ptr_lem}
use cppcourse.Debugging.Table.{Heap, make_table, free_table}
use cppcourse.Debugging.Table.Balance.{rows, free_table-make_table}

abbrev text : List ℕ
text = codes " to be or not "

longest_word_test : longest_word true text ≡ some (pos 3)
unfolding longest_word word_loop skip_spaces token_of behind_token c_str
longest_word_test = refl

longest_word_example : longest_word true text ≡ some (pos (longest (c_str text)))
longest_word_example = longest_word_lem text (unfold c_str in omega arith)

abbrev three : List ℤ
three = pos 7 ∷ pos 9 ∷ pos 9 ∷ []

str_upper_example :
    let n = length (c_str text) in
    (str_upper true text ≡ none)
    × ((buf : List ℕ) × (upper_loop n 0 text (replicate n 0) ≡ some buf)
        × (length buf ≡ n)
        × Upper 0 n text (replicate n 0) buf)
str_upper_example = str_upper_lem true text

find_max_ptr_example :
    (m : ℕ) × (find_max_ptr true three (pos 3) ≡ some (freed m)) × FirstMax (take 3 three) 3 m
find_max_ptr_example = find_max_ptr_lem 2 three (omega arith)

abbrev heap : Heap
heap = record { live = 0; room = 10 }

free_table-make_table_example :
    (h' : Heap) × (make_table 5 heap ≡ some (some (rows 5 0), h'))
    × (h'.live ≡ 0 + 5 + 1)
    × ((free_table (some (rows 5 0)) 5 h').live ≡ 0 + 5)
free_table-make_table_example = free_table-make_table 5 heap (omega arith) (omega arith)
