-- ===== src/Debugging/Table.antt =====
-- content/exercises/f4/04-leak-balance/starter.c: a table of strings, with the counting allocator of
-- content/exercises/f4/04-leak-balance/test.c. `none` is a write through NULL.
pub mod Balance
use cppcourse.Base.{
  ℕ, zero, suc, ◌+◌, ◌-◌, ◌==◌, Bool, true, false, List, [], ◌∷◌, ◌++◌, Option, none, some, take,
}
use cppcourse.Base.{if◌then◌else◌}
use cppcourse.Base.Checked.{◌>>=◌}
use cppcourse.Base.Text.{codes, decimal}

-- `g_live`, and the number of blocks that `malloc` can still supply, one of size 0 among them.
pub record Heap : Type 0 where
  pub live : ℕ
  pub room : ℕ

-- The flag says whether the result is a block; otherwise it is NULL.
unfoldable pub dbg_alloc : Heap → Heap × Bool
dbg_alloc h =
    if h.room == 0 then (h, false) else (record { live = h.live + 1; room = h.room - 1 }, true)

-- `free` of a block.
unfoldable pub dbg_free : Heap → Heap
dbg_free h = record { live = h.live - 1; room = h.room + 1 }

-- `snprintf(t[i], 16, "row%d", i)`
abbrev pub row : ℕ → List ℕ
row i = take 15 (codes "row" ++ decimal i)

-- The loop at `i`, with `n - i` rounds left: the strings from `t[i]` on.
unfoldable pub row_loop : ℕ → ℕ → Heap → Option (List (List ℕ) × Heap)
row_loop zero i h = some ([], h)
row_loop (suc left) i h =
    let (h', block) = dbg_alloc h in
    if block then (do (t, h'') ← row_loop left (i + 1) h'; some (row i ∷ t, h'')) else none

-- `make_table(n)` for `n ≥ 0`: the strings of the table, or NULL, which is `none` within the result.
unfoldable pub make_table : ℕ → Heap → Option (Option (List (List ℕ)) × Heap)
make_table n h =
    let (h', block) = dbg_alloc h in
    if block
    then (do (t, h'') ← row_loop n 0 h'; some (some t, h''))
    else if n == 0
    then some (none, h')
    else none

-- The array is freed, and none of the strings.
unfoldable pub free_table : Option (List (List ℕ)) → ℕ → Heap → Heap
free_table none n h = h
free_table (some t) n h = dbg_free h
