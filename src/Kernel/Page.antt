-- ===== src/Kernel/Page.antt =====
-- content/exercises/k4/03-page-alloc/starter.c: a page of memory behind a misc device.
pub mod Writes
pub mod Refine
use cppcourse.Base.{length, ℕ, min, List, [], none, some, Option, take, drop, ◌++◌}
use cppcourse.Kernel.Api.{Kernel, efault, enomem}
use cppcourse.Kernel.Device.{
  Handler, FileOps, MiscDevice, Loaded, fail, accept, misc_init, misc_exit,
}

abbrev pub page_size : ℕ
page_size = 4096

-- The page at `page_addr`, `none` while that is 0, and `data_len`.
pub record PageState : Type 0 where
  pub page : Option (List ℕ)
  pub data_len : ℕ

abbrev pub initial : PageState
initial = record { page = none; data_len = 0 }

-- A copy to the start of a buffer.
abbrev pub overwrite : List ℕ → List ℕ → List ℕ
overwrite bytes buf = bytes ++ drop (length bytes) buf

unfoldable pub page_write : Kernel → Handler PageState
page_write k c s =
    let n = min c.count page_size in
    elim s.page [
      | none ↦ (s, fail enomem c)
      | some page ↦ elim (k.copy_from_user c.ubuf n) [
        | none ↦ (
          record s { page = some (overwrite (k.copied_before_fault c.ubuf n) page) },
          fail efault c,
        )
        | some bytes ↦
            (record { page = some (overwrite bytes page); data_len = n }, accept c.count c)
      ]
    ]

-- Of an address 0 only the first 0 bytes are read.
unfoldable pub page_read : Kernel → Handler PageState
page_read k c s =
    let buf : List ℕ = elim s.page [ none ↦ [] | some page ↦ take s.data_len page ] in
    (s, k.simple_read_from_buffer c.ubuf c.count c.pos buf)

abbrev pub fops : Kernel → FileOps PageState
fops k = record {
  read = some (page_read k);
  write = some (page_write k);
  open_file = none;
  release = none;
  poll = none;
}

abbrev pub cpppage : Kernel → MiscDevice PageState
cpppage k = record { name = "cpppage"; fops = fops k; mode = some 0o666 }

unfoldable pub page_init : (k : Kernel) → k.World → Loaded k.World
page_init k w = misc_init k (cpppage k) w

unfoldable pub page_exit : (k : Kernel) → k.World → k.World
page_exit k w = misc_exit k (cpppage k) w
