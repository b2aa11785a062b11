-- ===== src/Kernel/Number.antt =====
-- The way in which four of the modules read a number from user memory: `kbuf` of 32 bytes, one copy,
-- `strim` and `kstrtol` in base 10.
use cppcourse.Base.{◌==◌, ◌||◌, leb, none, some, if◌then◌else◌}
use cppcourse.Base.Int.{ℤ}
use cppcourse.Base.Text.{c_str}
use cppcourse.Kernel.Api.{Kernel, Errno, einval, efault}
use cppcourse.Kernel.Device.{Call}

pub data Parsed : Type 0 where
  bad : Errno → Parsed
  number : ℤ → Parsed

unfoldable pub read_number : Kernel → Call → Parsed
read_number k c =
    if c.count == 0 || leb 32 c.count then bad einval else elim (k.copy_from_user c.ubuf c.count) [
      | none ↦ bad efault
      | some bytes ↦ elim (k.kstrtol (k.strim (c_str bytes)).start) [
        | none ↦ bad einval
        | some n ↦ number n
      ]
    ]
