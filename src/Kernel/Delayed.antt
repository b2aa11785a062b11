-- ===== src/Kernel/Delayed.antt =====
-- content/exercises/k3/02-delayed-work/starter.c: input that a delayed work item is to process.
pub mod Fits
pub mod Idle
use cppcourse.Base.{ℕ, ◌+◌, List, ◌++◌, none, some, take, drop, replicate, length}
use cppcourse.Base.{ltb, if◌then◌else◌}
use cppcourse.Base.Int.{ℤ, pos}
use cppcourse.Base.Text.{codes, c_str, print_ℤ}
use cppcourse.Kernel.Api.{Kernel, efault}
use cppcourse.Kernel.Device.{Handler, FileOps, MiscDevice, Loaded, loaded, fail, accept}

abbrev pub buf_size : ℕ
buf_size = 1024

-- `in_buf`, `in_len`, `res_buf`, `res_len` and `runs`.
pub record WorkState : Type 0 where
  pub in_buf : List ℕ
  pub in_len : ℕ
  pub res_buf : List ℕ
  pub res_len : ℕ
  pub runs : ℤ

abbrev pub initial : WorkState
initial = record {
  in_buf = replicate buf_size 0;
  in_len = 0;
  res_buf = replicate buf_size 0;
  res_len = 0;
  runs = pos 0;
}

-- `memcpy` over the start of a buffer.
abbrev pub overwrite : List ℕ → List ℕ → List ℕ
overwrite bytes buf = bytes ++ drop (length bytes) buf

unfoldable pub dwork_fn : WorkState → WorkState
dwork_fn s = s

-- `if (count > BUF_SIZE) count = BUF_SIZE;`
abbrev pub clamp : ℕ → ℕ
clamp count = if ltb buf_size count then buf_size else count

unfoldable pub dw_write : Kernel → Handler WorkState
dw_write k c s = elim (k.copy_from_user c.ubuf (clamp c.count)) [
  | none ↦ (
    record s { in_buf = overwrite (k.copied_before_fault c.ubuf (clamp c.count)) s.in_buf },
    fail efault c,
  )
  | some bytes ↦ (
    record s { in_buf = overwrite bytes s.in_buf; in_len = clamp c.count },
    accept (clamp c.count) c,
  )
]

-- `"%.*s runs=%d\n"`: the precision bounds the string, and a NUL in it ends it.
unfoldable pub dw_text : WorkState → List ℕ
dw_text s = c_str (take s.res_len s.res_buf) ++ codes " runs=" ++ print_ℤ s.runs ++ codes "\n"

unfoldable pub dw_read : Kernel → Handler WorkState
dw_read k c s =
    let tmp = k.scnprintf (buf_size + 32) (dw_text s) in
    (s, k.simple_read_from_buffer c.ubuf c.count c.pos tmp)

abbrev pub fops : Kernel → FileOps WorkState
fops k = record {
  read = some (dw_read k);
  write = some (dw_write k);
  open_file = none;
  release = none;
  poll = none;
}

abbrev pub cppdw : Kernel → MiscDevice WorkState
cppdw k = record { name = "cppdw"; fops = fops k; mode = some 0o666 }

unfoldable pub dw_init : (k : Kernel) → k.World → Loaded k.World
dw_init k w = loaded w

unfoldable pub dw_exit : (k : Kernel) → k.World → k.World
dw_exit k w = w
