-- ===== src/Kernel/PerCpu.antt =====
-- The two per-CPU counters: content/exercises/k2/05-percpu-counter/starter.c (a static counter) and
-- content/exercises/k4/04-percpu-alloc/starter.c (an allocated one).
use cppcourse.Base.{List, none, some}
use cppcourse.Base.Int.{ℤ, pos}
use cppcourse.Base.Text.{codes, print_ℤ}
use cppcourse.Base.{◌++◌}
use cppcourse.Kernel.Api.{Kernel}
use cppcourse.Kernel.Device.{
  Handler, FileOps, MiscDevice, Loaded, fail, accept, misc_init, misc_exit,
}
use cppcourse.Kernel.Number.{bad, number, read_number}

-- `mycount`, one instance for each CPU.
abbrev pub Counts : Type 0
Counts = List ℤ

unfoldable pub pc_write : Kernel → Handler Counts
pc_write k c s = elim (read_number k c) [ bad e ↦ (s, fail e c) | number n ↦ (s, accept c.count c) ]

unfoldable pub pc_read : Kernel → Handler Counts
pc_read k c s =
    let total = pos 0 in
    let tmp = k.scnprintf 32 (print_ℤ total ++ codes "\n") in
    (s, k.simple_read_from_buffer c.ubuf c.count c.pos tmp)

abbrev pub fops : Kernel → FileOps Counts
fops k = record {
  read = some (pc_read k);
  write = some (pc_write k);
  open_file = none;
  release = none;
  poll = none;
}

abbrev pub cpppercpu : Kernel → MiscDevice Counts
cpppercpu k = record { name = "cpppercpu"; fops = fops k; mode = some 0o666 }

unfoldable pub pc_init : (k : Kernel) → k.World → Loaded k.World
pc_init k w = misc_init k (cpppercpu k) w

unfoldable pub pc_exit : (k : Kernel) → k.World → k.World
pc_exit k w = misc_exit k (cpppercpu k) w

-- The module of the memory chapter: `counter` is a pointer that nothing sets.
unfoldable pub alloc_pc_write : Kernel → Handler Counts
alloc_pc_write k c s = elim (read_number k c) [
  | bad e ↦ (s, fail e c)
  | number n ↦ (s, accept c.count c)
]

unfoldable pub alloc_pc_read : Kernel → Handler Counts
alloc_pc_read k c s =
    let total = pos 0 in
    let tmp = k.scnprintf 32 (print_ℤ total ++ codes "\n") in
    (s, k.simple_read_from_buffer c.ubuf c.count c.pos tmp)

abbrev pub alloc_fops : Kernel → FileOps Counts
alloc_fops k = record {
  read = some (alloc_pc_read k);
  write = some (alloc_pc_write k);
  open_file = none;
  release = none;
  poll = none;
}

abbrev pub cpppc : Kernel → MiscDevice Counts
cpppc k = record { name = "cpppc"; fops = alloc_fops k; mode = some 0o666 }

unfoldable pub alloc_pc_init : (k : Kernel) → k.World → Loaded k.World
alloc_pc_init k w = misc_init k (cpppc k) w

unfoldable pub alloc_pc_exit : (k : Kernel) → k.World → k.World
alloc_pc_exit k w = misc_exit k (cpppc k) w
