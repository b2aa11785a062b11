-- ===== src/Kernel/Stack/Listing.antt =====
-- What a read of the stack device shows.
use mathlib.Core.List.{append_assoc, append-nil}
use cppcourse.Base.{some, refl, ℕ, ◌-◌, ◌≤◌, ◌<◌, ◌≡◌, sym, ap, ◌∙◌, arith, List, [], ◌∷◌, ◌++◌}
use cppcourse.Base.{length, length-take, length-set, take, drop, take_all, take-append, true}
use cppcourse.Base.{Bool-cases, ◌==◌}
use cppcourse.Base.{take-append_take, inl, inr}
use cppcourse.Base.Int.{ℤ}
use cppcourse.Base.Text.{codes, print_ℤ}
use cppcourse.Kernel.Api.{Kernel, IsKernel, count}
use cppcourse.Kernel.Device.{Call}
use cppcourse.Kernel.Client.{cat, HasRoom, Shows, cat_lem}
use cppcourse.Kernel.Stack.{StackState, page_size, list_items, end_line, stack_read}

-- Every value followed by a space, from the top of the stack.
unfoldable pub listing : List ℤ → List ℕ
listing [] = []
listing (val ∷ items) = (print_ℤ val ++ codes " ") ++ listing items

module _ (k : Kernel) (ok : IsKernel k) where
  scnprintf_fits :
      (text buf : List ℕ)
      → length buf ≤ 4095
      → buf ++ k.scnprintf (page_size - length buf) text ≡ take 4095 (buf ++ text)
  scnprintf_fits text buf h =
      let room : page_size - length buf - 1 ≡ 4095 - length buf = omega arith in
      rw (ok.scnprintf_lem (page_size - length buf) text (omega arith), room)
        (sym (take-append 4095 buf text h))

  list_items_lem :
      (items : List ℤ) (buf : List ℕ)
      → length buf ≤ 4095
      → list_items k items buf ≡ take 4095 (buf ++ listing items)
  unfolding list_items listing
  list_items_lem [] buf h = rw append-nil (sym (take_all 4095 buf h))
  list_items_lem (val ∷ items) buf h =
      let text = print_ℤ val ++ codes " " in
      let short : length (take 4095 (buf ++ text)) ≤ 4095 =
        omega (arith, length-take 4095 (buf ++ text)) in
      rw (scnprintf_fits text buf h) (
        list_items_lem items (take 4095 (buf ++ text)) short
        ∙ take-append_take 4095 (buf ++ text) (listing items)
        ∙ ap (take 4095) (append_assoc buf text (listing items)))

  end_line-le : (buf : List ℕ) → length buf ≤ 4095 → length (end_line buf) ≤ 4095
  unfolding end_line
  end_line-le buf h = elim (Bool-cases (length buf == 0)) [
    | inl e ↦ rw e (omega arith)
    | inr e ↦ rw e (omega (arith, length-set buf (length buf - 1) b'\n'))
  ]

  -- A read for which the buffer is allocated leaves the stack alone, writes less than a page, and,
  -- if it succeeds, copies so many bytes as it returns from the file position on, of the text of the values from the top, cut at
  -- 4095 bytes, its last space replaced by a line end (an empty stack gives a line end alone).
  pub stack_read_lem :
      (c : Call) (s : StackState) (n : ℕ)
      → c.memory ≡ true
      → (stack_read k c s).1.ret ≡ count n
      → let text = end_line (take 4095 (listing s.stack)) in
        ((stack_read k c s).0 ≡ s)
        × (length text ≤ 4095)
        × ((stack_read k c s).1.copied ≡ take n (drop c.pos text))
        × (n ≤ length (take c.count (drop c.pos text)))
  unfolding stack_read
  stack_read_lem c s n memory h =
      let text = end_line (take 4095 (listing s.stack)) in
      let same : end_line (list_items k s.stack []) ≡ text =
        ap end_line (list_items_lem s.stack [] (omega arith)) in
      let done = rw (memory, same) at h in
      let read = ok.simple_read c.ubuf c.count c.pos text n done in
      (
        rw memory,
        end_line-le (take 4095 (listing s.stack))
            (omega (arith, length-take 4095 (listing s.stack))),
        rw (memory, same) read.0,
        read.1,
      )

  stack_read-Shows :
      (s : StackState) → Shows k (stack_read k) s (end_line (take 4095 (listing s.stack)))
  unfolding stack_read
  stack_read-Shows s c memory =
      let same : end_line (list_items k s.stack []) ≡ end_line (take 4095 (listing s.stack)) =
        ap end_line (list_items_lem s.stack [] (omega arith)) in
      rw (memory, same) refl

  -- A client that reads the stack device from the start in pieces of any one size but 0, with the buffer
  -- allocated and room for each piece, reaches a read that returns 0 within 4096 reads, and has by then
  -- exactly the text of the values from the top, cut at 4095 bytes, its last space replaced by a line end.
  pub cat-stack_read :
      (s : StackState) (ubuf n reads : ℕ)
      → HasRoom k ubuf n
      → 0 < n
      → 4096 ≤ reads
      → cat (stack_read k) ubuf n reads s 0 ≡ some (end_line (take 4095 (listing s.stack)))
  cat-stack_read s ubuf n reads room some_room enough =
      let short =
        end_line-le (take 4095 (listing s.stack))
          (omega (arith, length-take 4095 (listing s.stack))) in
      cat_lem k ok (stack_read k) s _ ubuf n reads (stack_read-Shows s) room some_room
        (omega (arith, short))
