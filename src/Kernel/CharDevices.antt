-- ===== src/Kernel/CharDevices.antt =====
-- The four devices of content/exercises/k1: 01-char-dev, 02-misc-uppercase, 03-readonly-info and
-- 04-open-counter, each in its starter.c.
use cppcourse.Base.{ℕ, List, none, some, replicate, Option}
use cppcourse.Base.Int.{ℤ}
use cppcourse.Base.Text.{codes}
use cppcourse.Kernel.Api.{Kernel, einval, Ret}
use cppcourse.Kernel.Device.{Handler, FileOps, MiscDevice, Loaded, loaded, fail}

-- `buffer`, NULL being `none`, and `data_len`.
pub record CharState : Type 0 where
  pub buffer : Option (List ℕ)
  pub data_len : ℕ

abbrev pub char_initial : CharState
char_initial = record { buffer = none; data_len = 0 }

unfoldable pub my_read : Handler CharState
my_read c s = (s, fail einval c)

unfoldable pub my_write : Handler CharState
my_write c s = (s, fail einval c)

abbrev pub char_fops : FileOps CharState
char_fops = record {
  read = some my_read;
  write = some my_write;
  open_file = none;
  release = none;
  poll = none;
}

unfoldable pub my_init : (k : Kernel) → k.World → Loaded k.World
my_init k w = loaded w

unfoldable pub my_exit : (k : Kernel) → k.World → k.World
my_exit k w = w

-- The uppercase device: `buffer` and `data_len`.
pub record UpperState : Type 0 where
  pub buffer : List ℕ
  pub data_len : ℕ

abbrev pub upper_initial : UpperState
upper_initial = record { buffer = replicate 1024 0; data_len = 0 }

unfoldable pub upper_read : Handler UpperState
upper_read c s = (s, fail einval c)

unfoldable pub upper_write : Handler UpperState
upper_write c s = (s, fail einval c)

abbrev pub upper_fops : FileOps UpperState
upper_fops = record {
  read = some upper_read;
  write = some upper_write;
  open_file = none;
  release = none;
  poll = none;
}

abbrev pub cppupper : MiscDevice UpperState
cppupper = record { name = "cppupper"; fops = upper_fops; mode = none }

unfoldable pub upper_init : (k : Kernel) → k.World → Loaded k.World
upper_init k w = loaded w

unfoldable pub upper_exit : (k : Kernel) → k.World → k.World
upper_exit k w = w

-- The read-only device has no state but its text.
abbrev pub info : List ℕ
info = codes "CPPK1-INFO-OK"

unfoldable pub info_read : Handler (Unit {0})
info_read c s = (s, fail einval c)

unfoldable pub info_write : Handler (Unit {0})
info_write c s = (s, fail einval c)

abbrev pub info_fops : FileOps (Unit {0})
info_fops = record {
  read = some info_read;
  write = some info_write;
  open_file = none;
  release = none;
  poll = none;
}

abbrev pub cppinfo : MiscDevice (Unit {0})
cppinfo = record { name = "cppinfo"; fops = info_fops; mode = none }

unfoldable pub info_init : (k : Kernel) → k.World → Loaded k.World
info_init k w = loaded w

unfoldable pub info_exit : (k : Kernel) → k.World → k.World
info_exit k w = w

-- The open counter: its state is `open_count`.
unfoldable pub cnt_open : ℤ → ℤ × Ret
cnt_open open_count = (open_count, Ret.count 0)

unfoldable pub cnt_read : Handler ℤ
cnt_read c open_count = (open_count, fail einval c)

unfoldable pub cnt_release : ℤ → ℤ × Ret
cnt_release open_count = (open_count, Ret.count 0)

abbrev pub cnt_fops : FileOps ℤ
cnt_fops = record {
  read = some cnt_read;
  write = none;
  open_file = some cnt_open;
  release = some cnt_release;
  poll = none;
}

abbrev pub cppcount : MiscDevice ℤ
cppcount = record { name = "cppcount"; fops = cnt_fops; mode = none }

unfoldable pub cnt_init : (k : Kernel) → k.World → Loaded k.World
cnt_init k w = loaded w

unfoldable pub cnt_exit : (k : Kernel) → k.World → k.World
cnt_exit k w = w
