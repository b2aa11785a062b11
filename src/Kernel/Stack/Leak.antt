-- ===== src/Kernel/Stack/Leak.antt =====
-- The items that the stack device allocates over a sequence of calls, and those that it frees.
use cppcourse.Base.{ℕ, ◌+◌, ◌-◌, ◌≡◌, refl, ◌∙◌, arith, List, [], ◌∷◌, none, some, length}
use cppcourse.Base.{Bool, false, leb, ◌==◌, ◌||◌, if◌then◌else◌}
use cppcourse.Base.Int.{ℤ}
use cppcourse.Base.Text.{c_str}
use cppcourse.Kernel.Api.{Kernel}
use cppcourse.Kernel.Device.{Call}
use cppcourse.Kernel.Stack.{
  StackState, empty, do_push, do_pop, push_arg, command, stack_write, stack_read, free_items,
  stack_exit,
}

-- A call on the device file.
pub data Request : Type 0 where
  write read : Call → Request

unfoldable pub serve : Kernel → List Request → StackState → StackState
serve k [] s = s
serve k (write c ∷ requests) s = serve k requests (stack_write k c s).0
serve k (read c ∷ requests) s = serve k requests (stack_read k c s).0

-- Whether a write is a push command that the device accepts.
unfoldable pub pushes : Kernel → Call → Bool
pushes k c =
    if c.count == 0 || leb 48 c.count then false else elim (k.copy_from_user c.ubuf c.count) [
      | none ↦ false
      | some bytes ↦ elim (push_arg k (k.strim (c_str bytes)).left) [
        | none ↦ false
        | some n ↦ c.memory
      ]
    ]

unfoldable pub push_count : Kernel → List Request → ℕ
push_count k [] = 0
push_count k (write c ∷ requests) = (if pushes k c then 1 else 0) + push_count k requests
push_count k (read c ∷ requests) = push_count k requests

module _ (k : Kernel) where
  stack_write-leak :
      (c : Call) (s : StackState)
      → (stack_write k c s).0 ≡ record s { live = s.live + (if pushes k c then 1 else 0) }
  unfolding stack_write command pushes do_push do_pop
  stack_write-leak c s = ground arith

  stack_read-same : (c : Call) (s : StackState) → (stack_read k c s).0 ≡ s
  unfolding stack_read
  stack_read-same c s = ground arith

  -- Calls do not change the list.
  serve_lem :
      (requests : List Request) (s : StackState)
      → serve k requests s ≡ record s { live = s.live + push_count k requests }
  unfolding serve push_count
  serve_lem [] s = ground arith
  serve_lem (write c ∷ requests) s = rw (stack_write-leak c s) (
      serve_lem requests (record s { live = s.live + (if pushes k c then 1 else 0) })
      ∙ ground arith)
  serve_lem (read c ∷ requests) s = rw (stack_read-same c s) (serve_lem requests s)

free_items_lem :
    (items : List ℤ) (s : StackState) (lost : ℕ)
    → s.stack ≡ items
    → s.live ≡ length items + lost
    → free_items items s ≡ record { stack = []; live = lost }
unfolding free_items
free_items_lem [] s lost e h = ground arith
free_items_lem (val ∷ items) s lost e h =
    free_items_lem items (record { stack = items; live = s.live - 1 }) lost refl (omega arith)

-- Unloading frees exactly the items on the stack: if the allocated items are those and `lost` others,
-- then the stack is empty afterwards and the `lost` others are still allocated.
pub stack_exit_lem :
    (k : Kernel) (w : k.World) (s : StackState) (lost : ℕ)
    → s.live ≡ length s.stack + lost
    → (stack_exit k w s).1 ≡ record { stack = []; live = lost }
unfolding stack_exit
stack_exit_lem k w s lost h = free_items_lem s.stack s lost refl h

-- From the load on, whatever reads and writes come, no value is ever on the stack, and when the
-- module is unloaded one item is left allocated for each push command that it accepted.
pub serve-leaks_items :
    (k : Kernel) (w : k.World) (requests : List Request)
    → let s = serve k requests empty in
      (s.stack ≡ []) × ((stack_exit k w s).1 ≡ record { stack = []; live = push_count k requests })
serve-leaks_items k w requests =
    let same = serve_lem k requests empty in
    (
      rw same,
      rw same (
          stack_exit_lem k w (record { stack = []; live = 0 + push_count k requests })
            (push_count k requests) (omega arith)),
    )
