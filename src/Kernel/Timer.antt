-- ===== src/Kernel/Timer.antt =====
-- content/exercises/k3/03-timer-source/starter.c and content/exercises/k3/01-workqueue/starter.c.
use cppcourse.Base.{ℕ, List, none, some, ◌++◌, replicate}
use cppcourse.Base.Int.{ℤ, pos}
use cppcourse.Base.Text.{codes, print_ℤ}
use cppcourse.Kernel.Api.{Kernel, einval}
use cppcourse.Kernel.Device.{Handler, FileOps, MiscDevice, Loaded, loaded, fail}

-- `ticks` and `processed`.
pub record TimerState : Type 0 where
  pub ticks : ℤ
  pub processed : ℤ

abbrev pub initial : TimerState
initial = record { ticks = pos 0; processed = pos 0 }

unfoldable pub work_fn : TimerState → TimerState
work_fn s = s

unfoldable pub timer_fn : TimerState → TimerState
timer_fn s = s

unfoldable pub timer_read : Kernel → Handler TimerState
timer_read k c s =
    let p = s.processed in
    let tmp =
      k.scnprintf 64
        (codes "ticks=" ++ print_ℤ s.ticks ++ codes " processed=" ++ print_ℤ p ++ codes "\n") in
    (s, k.simple_read_from_buffer c.ubuf c.count c.pos tmp)

abbrev pub fops : Kernel → FileOps TimerState
fops k = record {
  read = some (timer_read k);
  write = none;
  open_file = none;
  release = none;
  poll = none;
}

abbrev pub cpptimer : Kernel → MiscDevice TimerState
cpptimer k = record { name = "cpptimer"; fops = fops k; mode = some 0o444 }

unfoldable pub timer_init : (k : Kernel) → k.World → Loaded k.World
timer_init k w = loaded w

unfoldable pub timer_exit : (k : Kernel) → k.World → k.World
timer_exit k w = w

-- The buffers of the workqueue module.
pub record QueuedState : Type 0 where
  pub in_buf : List ℕ
  pub in_len : ℕ
  pub res_buf : List ℕ
  pub res_len : ℕ

abbrev pub queued_initial : QueuedState
queued_initial = record {
  in_buf = replicate 1024 0;
  in_len = 0;
  res_buf = replicate 1024 0;
  res_len = 0;
}

unfoldable pub queued_work_fn : QueuedState → QueuedState
queued_work_fn s = s

unfoldable pub wq_write : Handler QueuedState
wq_write c s = (s, fail einval c)

unfoldable pub wq_read : Handler QueuedState
wq_read c s = (s, fail einval c)

abbrev pub wq_fops : FileOps QueuedState
wq_fops = record {
  read = some wq_read;
  write = some wq_write;
  open_file = none;
  release = none;
  poll = none;
}

abbrev pub cppwq : MiscDevice QueuedState
cppwq = record { name = "cppwq"; fops = wq_fops; mode = none }

unfoldable pub wq_init : (k : Kernel) → k.World → Loaded k.World
wq_init k w = loaded w

unfoldable pub wq_exit : (k : Kernel) → k.World → k.World
wq_exit k w = w
