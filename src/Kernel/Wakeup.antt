-- ===== src/Kernel/Wakeup.antt =====
-- content/exercises/k3/04-blocking-wakeup/starter.c: a result that a read takes once.
pub mod Idle
use cppcourse.Base.{ℕ, min, Bool, false, List, none, some, take, replicate, if◌then◌else◌}
use cppcourse.Kernel.Api.{Kernel, efault, Ret}
use cppcourse.Kernel.Device.{Handler, FileOps, MiscDevice, Loaded, loaded, fail, accept}
use cppcourse.Kernel.Delayed.{buf_size, clamp, overwrite}

pub record WakeState : Type 0 where
  pub in_buf : List ℕ
  pub in_len : ℕ
  pub res_buf : List ℕ
  pub res_len : ℕ
  pub data_ready : Bool

abbrev pub initial : WakeState
initial = record {
  in_buf = replicate buf_size 0;
  in_len = 0;
  res_buf = replicate buf_size 0;
  res_len = 0;
  data_ready = false;
}

unfoldable pub work_fn : WakeState → WakeState
work_fn s = s

unfoldable pub wake_write : Kernel → Handler WakeState
wake_write k c s = elim (k.copy_from_user c.ubuf (clamp c.count)) [
  | none ↦ (
    record s { in_buf = overwrite (k.copied_before_fault c.ubuf (clamp c.count)) s.in_buf },
    fail efault c,
  )
  | some bytes ↦ (
    record s { in_buf = overwrite bytes s.in_buf; in_len = clamp c.count; data_ready = false },
    accept (clamp c.count) c,
  )
]

-- The copy to the user comes after the flag is cleared, and does not move the position.
unfoldable pub wake_read : Kernel → Handler WakeState
wake_read k c s =
    let n = min c.count s.res_len in
    let tmp = take n s.res_buf in
    let s' = record s { data_ready = false } in
    if k.copy_to_user c.ubuf tmp
    then (s', record { ret = Ret.count n; copied = tmp; pos = c.pos })
    else (s', fail efault c)

-- The poll mask.
unfoldable pub wake_poll : WakeState → WakeState × ℕ
wake_poll s = (s, 0)

abbrev pub fops : Kernel → FileOps WakeState
fops k = record {
  read = some (wake_read k);
  write = some (wake_write k);
  open_file = none;
  release = none;
  poll = some wake_poll;
}

abbrev pub cppwake : Kernel → MiscDevice WakeState
cppwake k = record { name = "cppwake"; fops = fops k; mode = some 0o666 }

unfoldable pub wake_init : (k : Kernel) → k.World → Loaded k.World
wake_init k w = loaded w

unfoldable pub wake_exit : (k : Kernel) → k.World → k.World
wake_exit k w = w
