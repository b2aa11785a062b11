-- ===== src/Debugging/Table/Balance.antt =====
-- What building a table and freeing it leaves allocated.
use cppcourse.Base.{
  ℕ, zero, suc, ◌+◌, ◌-◌, ◌<◌, ◌^◌, ◌≡◌, ◌∙◌, arith, List, [], ◌∷◌, ◌++◌, some, true, length-append,
  take_all, ap, sym,
}
use cppcourse.Base.Text.{codes, decimal, length-decimal}
use cppcourse.Debugging.Table.{Heap, dbg_alloc, dbg_free, row, row_loop, make_table, free_table}

-- "row<i>" for the `left` numbers from `i` on.
abbrev pub rows : ℕ → ℕ → List (List ℕ)
rows zero i = []
rows (suc left) i = (codes "row" ++ decimal i) ∷ rows left (i + 1)

row_lem : (i : ℕ) → i < 2 ^ 31 → row i ≡ codes "row" ++ decimal i
row_lem i h =
    take_all 15 (codes "row" ++ decimal i)
      (omega (arith, length-append (codes "row") (decimal i), length-decimal i 9 (omega arith)))

dbg_alloc_lem :
    (live room : ℕ)
    → dbg_alloc (record { live = live; room = suc room })
      ≡ (record { live = live + 1; room = room }, true)
unfolding dbg_alloc
dbg_alloc_lem live room = ground arith

row_loop_lem :
    (left i live room : ℕ)
    → i + left < 2 ^ 31
    → row_loop left i (record { live = live; room = room + left })
      ≡ some (rows left i, record { live = live + left; room = room })
unfolding row_loop
row_loop_lem zero i live room small = ground arith
row_loop_lem (suc left) i live room small =
    let rest = row_loop_lem left (i + 1) (live + 1) room (omega arith) in
    let text = row_lem i (omega arith) in
    let count : live + 1 + left ≡ live + suc left = omega arith in
    let more : room + suc left ≡ suc (room + left) = omega arith in
    rw (more, dbg_alloc_lem live (room + left), rest, text, count)

make_table_lem :
    (n live room : ℕ)
    → n < 2 ^ 31
    → make_table n (record { live = live; room = suc (room + n) })
      ≡ some (some (rows n 0), record { live = live + 1 + n; room = room })
unfolding make_table
make_table_lem n live room small =
    rw (dbg_alloc_lem live (room + n), row_loop_lem n 0 (live + 1) room (omega arith))

-- With `n` an `int` and memory for `n + 1` blocks, `make_table(n)` returns the table of the strings
-- "row0" to "row<n - 1>" with `n + 1` blocks more allocated; after `free_table` the `n` strings are
-- allocated still.
pub free_table-make_table :
    (n : ℕ) (h : Heap)
    → n < 2 ^ 31
    → n < h.room
    → (h' : Heap) × (make_table n h ≡ some (some (rows n 0), h'))
      × (h'.live ≡ h.live + n + 1)
      × ((free_table (some (rows n 0)) n h').live ≡ h.live + n)
unfolding free_table dbg_free
free_table-make_table n h small enough =
    let left = h.room - n - 1 in
    let split : suc (left + n) ≡ h.room = omega arith in
    (
      record { live = h.live + 1 + n; room = left },
      ap (λ (r : ℕ). make_table n (record { live = h.live; room = r })) (sym split)
          ∙ make_table_lem n h.live left small,
      omega arith,
      omega arith,
    )
