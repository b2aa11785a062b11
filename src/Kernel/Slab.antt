-- ===== src/Kernel/Slab.antt =====
-- content/exercises/k4/01-slab-cache/starter.c and content/exercises/k4/02-kvmalloc-buffer/starter.c.
use cppcourse.Base.{ℕ, ◌-◌, min, ltb, ◌==◌, ◌&&◌, List, [], none, some, take, length, get_or, set}
use cppcourse.Base.{◌++◌, ◌∷◌, if◌then◌else◌}
use cppcourse.Base.Text.{codes}
use cppcourse.Kernel.Api.{Kernel, efault}
use cppcourse.Kernel.Device.{
  Handler, FileOps, MiscDevice, Loaded, fail, accept, misc_init, misc_exit,
}

-- `entries`, by the names, from the head of the list.
abbrev pub Entries : Type 0
Entries = List (List ℕ)

-- `kbuf`: the bytes with a NUL behind them, a line end at the end cut off.
unfoldable pub entry_name : List ℕ → List ℕ
entry_name bytes =
    let n = length bytes in
    if ltb 0 n && get_or bytes (n - 1) 0 == b'\n'
    then set bytes (n - 1) 0 ++ 0 ∷ []
    else bytes ++ 0 ∷ []

-- The name is read and not stored.
unfoldable pub slab_write : Kernel → Handler Entries
slab_write k c s = elim (k.copy_from_user c.ubuf (min c.count 31)) [
  | none ↦ (s, fail efault c)
  | some bytes ↦ let kbuf = entry_name bytes in (s, accept c.count c)
]

-- `len` stays 0, so the text is one line end.
unfoldable pub slab_read : Kernel → Handler Entries
slab_read k c s = (s, k.simple_read_from_buffer c.ubuf c.count c.pos (codes "\n"))

abbrev pub fops : Kernel → FileOps Entries
fops k = record {
  read = some (slab_read k);
  write = some (slab_write k);
  open_file = none;
  release = none;
  poll = none;
}

abbrev pub cppslab : Kernel → MiscDevice Entries
cppslab k = record { name = "cppslab"; fops = fops k; mode = some 0o666 }

unfoldable pub slab_init : (k : Kernel) → k.World → Loaded k.World
slab_init k w = misc_init k (cppslab k) w

unfoldable pub slab_exit : (k : Kernel) → k.World → k.World
slab_exit k w = misc_exit k (cppslab k) w

-- The module of the kvmalloc buffer: `buf` and `buf_len`.
pub record BufState : Type 0 where
  pub buf : List ℕ
  pub buf_len : ℕ

unfoldable pub kv_write : Handler BufState
kv_write c s = (s, accept c.count c)

unfoldable pub kv_read : Kernel → Handler BufState
kv_read k c s = (s, k.simple_read_from_buffer c.ubuf c.count c.pos (take s.buf_len s.buf))

abbrev pub kv_fops : Kernel → FileOps BufState
kv_fops k = record {
  read = some (kv_read k);
  write = some kv_write;
  open_file = none;
  release = none;
  poll = none;
}

abbrev pub cppkv : Kernel → MiscDevice BufState
cppkv k = record { name = "cppkv"; fops = kv_fops k; mode = some 0o666 }

unfoldable pub kv_init : (k : Kernel) → k.World → Loaded k.World
kv_init k w = misc_init k (cppkv k) w

unfoldable pub kv_exit : (k : Kernel) → k.World → k.World
kv_exit k w = misc_exit k (cppkv k) w
