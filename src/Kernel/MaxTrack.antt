-- ===== src/Kernel/MaxTrack.antt =====
-- content/exercises/k2/01-atomic-maxtrack/starter.c: a counter and its maximum.
use cppcourse.Base.{none, some}
use cppcourse.Base.Int.{ℤ, pos}
use cppcourse.Base.Text.{codes}
use cppcourse.Kernel.Api.{Kernel}
use cppcourse.Kernel.Device.{
  Handler, FileOps, MiscDevice, Loaded, fail, accept, misc_init, misc_exit,
}
use cppcourse.Kernel.Number.{bad, number, read_number}

-- `counter` and `high`.
pub record MaxState : Type 0 where
  pub counter : ℤ
  pub high : ℤ

abbrev pub initial : MaxState
initial = record { counter = pos 0; high = pos 0 }

unfoldable pub bump_high : ℤ → MaxState → MaxState
bump_high v s = s

unfoldable pub max_write : Kernel → Handler MaxState
max_write k c s = elim (read_number k c) [
  | bad e ↦ (s, fail e c)
  | number n ↦ (s, accept c.count c)
]

unfoldable pub max_read : Kernel → Handler MaxState
max_read k c s =
    let tmp = k.scnprintf 64 (codes "counter=0 max=0\n") in
    (s, k.simple_read_from_buffer c.ubuf c.count c.pos tmp)

abbrev pub fops : Kernel → FileOps MaxState
fops k = record {
  read = some (max_read k);
  write = some (max_write k);
  open_file = none;
  release = none;
  poll = none;
}

abbrev pub cppmax : Kernel → MiscDevice MaxState
cppmax k = record { name = "cppmax"; fops = fops k; mode = some 0o666 }

unfoldable pub max_init : (k : Kernel) → k.World → Loaded k.World
max_init k w = misc_init k (cppmax k) w

unfoldable pub max_exit : (k : Kernel) → k.World → k.World
max_exit k w = misc_exit k (cppmax k) w
