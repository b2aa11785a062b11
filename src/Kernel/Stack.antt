-- ===== src/Kernel/Stack.antt =====
-- content/exercises/k2/02-spinlock-stack/starter.c: a stack of numbers behind a misc device. Every
-- critical section is one step here, since the spinlock excludes the others.
pub mod Listing
pub mod Leak
use cppcourse.Base.{ℕ, ◌+◌, ◌-◌, ◌||◌, ◌==◌, leb, List, [], ◌∷◌, ◌++◌}
use cppcourse.Base.{Option, none, some, length, set, drop, if◌then◌else◌}
use cppcourse.Base.Int.{ℤ}
use cppcourse.Base.Text.{codes, c_str, starts_with, print_ℤ}
use cppcourse.Kernel.Api.{Kernel, einval, efault, enomem, Reply}
use cppcourse.Kernel.Device.{
  Call, Handler, FileOps, MiscDevice, Loaded, fail, accept, misc_init, misc_exit,
}

abbrev pub page_size : ℕ
page_size = 4096

-- `stack`, by the values of its items from the top, and the number of items that are allocated.
pub record StackState : Type 0 where
  pub stack : List ℤ
  pub live : ℕ

abbrev pub empty : StackState
empty = record { stack = []; live = 0 }

unfoldable pub do_push : ℤ → StackState → StackState
do_push val s = s

unfoldable pub do_pop : StackState → StackState × Option ℤ
do_pop s = (s, none)

-- `kfree` of an item, or of NULL.
abbrev pub kfree : Option ℤ → StackState → StackState
kfree none s = s
kfree (some val) s = record s { live = s.live - 1 }

-- The number of a "push <n>" command in `kbuf`, if it is one.
unfoldable pub push_arg : Kernel → List ℕ → Option ℤ
push_arg k kbuf =
    if starts_with kbuf (codes "push ") then k.kstrtol (k.strim (drop 5 kbuf)).start else none

-- The two commands, on the buffer as `strim(kbuf)` leaves it.
unfoldable pub command : Kernel → List ℕ → Call → StackState → StackState × Reply
command k kbuf c s = elim (push_arg k kbuf) [
  | some n ↦
      if c.memory
      then (do_push n (record s { live = s.live + 1 }), accept c.count c)
      else (s, fail enomem c)
  | none ↦
      if starts_with kbuf (codes "pop")
      then (let (s', it) = do_pop s in (kfree it s', accept c.count c))
      else (s, fail einval c)
]

unfoldable pub stack_write : Kernel → Handler StackState
stack_write k c s =
    if c.count == 0 || leb 48 c.count
    then (s, fail einval c)
    else elim (k.copy_from_user c.ubuf c.count) [
      | none ↦ (s, fail efault c)
      | some bytes ↦ command k (k.strim (c_str bytes)).left c s
    ]

-- The loop over the list; `buf` holds the `len` bytes written so far.
unfoldable pub list_items : Kernel → List ℤ → List ℕ → List ℕ
list_items k [] buf = buf
list_items k (val ∷ items) buf =
    list_items k items (buf ++ k.scnprintf (page_size - length buf) (print_ℤ val ++ codes " "))

unfoldable pub end_line : List ℕ → List ℕ
end_line buf = if length buf == 0 then codes "\n" else set buf (length buf - 1) b'\n'

unfoldable pub stack_read : Kernel → Handler StackState
stack_read k c s =
    if c.memory
    then (s, k.simple_read_from_buffer c.ubuf c.count c.pos (end_line (list_items k s.stack [])))
    else (s, fail enomem c)

abbrev pub fops : Kernel → FileOps StackState
fops k = record {
  read = some (stack_read k);
  write = some (stack_write k);
  open_file = none;
  release = none;
  poll = none;
}

abbrev pub cppstack : Kernel → MiscDevice StackState
cppstack k = record { name = "cppstack"; fops = fops k; mode = some 0o666 }

unfoldable pub stack_init : (k : Kernel) → k.World → Loaded k.World
stack_init k w = misc_init k (cppstack k) w

-- The loop that deletes and frees every item.
unfoldable pub free_items : List ℤ → StackState → StackState
free_items [] s = s
free_items (val ∷ items) s = free_items items (record { stack = items; live = s.live - 1 })

unfoldable pub stack_exit : (k : Kernel) → k.World → StackState → k.World × StackState
stack_exit k w s = (misc_exit k (cppstack k) w, free_items s.stack s)
