-- ===== src/Spi.antt =====
-- The NOR flash simulator of content/exercises/el5/02-spi-dummy/starter.c: its memory and status
-- byte, and the transfer that decodes the command byte. Pointers that may be NULL are options, and
-- the two buffers of a transfer do not overlap.
pub mod Memory
pub mod Transfer
pub mod RoundTrip
pub mod Session
pub mod Commands
pub mod Refine
pub mod Driver
mod Tests
use cppcourse.Base.{ℕ, zero, suc, ◌+◌, ◌-◌, ◌%◌, bit_and, bit_or, leb, ltb, ◌==◌, ◌&&◌, not}
use cppcourse.Base.{
  if◌then◌else◌, Bool, ◌++◌, drop, List, Option, none, some, get_elem?, replicate, length, set,
}
use cppcourse.Base.Checked.{◌>>=◌, store}

abbrev pub flash_size : ℕ
flash_size = 256

abbrev pub cmd_jedec_id : ℕ
cmd_jedec_id = 0x9f

abbrev pub cmd_read_status : ℕ
cmd_read_status = 0x05

abbrev pub cmd_write_en : ℕ
cmd_write_en = 0x06

abbrev pub cmd_read : ℕ
cmd_read = 0x03

abbrev pub cmd_page_prog : ℕ
cmd_page_prog = 0x02

abbrev pub cmd_chip_erase : ℕ
cmd_chip_erase = 0x60

-- `g_flash` and `g_status`.
pub record Flash : Type 0 where
  pub mem : List ℕ
  pub status : ℕ

-- The receive buffer, absent if the caller passed NULL.
abbrev pub Rx : Type 0
Rx = Option (List ℕ)

abbrev pub Transferred : Type 0
Transferred = Option (Flash × Rx)

-- Before `sim_flash_init` the static objects are zero.
abbrev pub power_on : Flash
power_on = record { mem = replicate 256 0; status = 0 }

unfoldable pub sim_flash_init : Flash → Flash
sim_flash_init f = record f { mem = replicate 256 0xff; status = 0 }

-- `g_status & 0x02u`
abbrev pub wel_set : Flash → Bool
wel_set f = not (bit_and f.status 2 == 0)

-- `memset(rx, 0xFF, len)`; a buffer shorter than `len` is overrun.
unfoldable pub fill_rx : Rx → ℕ → Option Rx
fill_rx none len = some none
fill_rx (some rx) len =
    if leb len (length rx) then some (some (replicate len 0xff ++ drop len rx)) else none

unfoldable pub jedec_id : Rx → ℕ → Flash → Transferred
jedec_id none len f = some (f, none)
jedec_id (some rx) len f =
    if leb 4 len
    then (do
      rx1 ← store rx 1 0xef
      rx2 ← store rx1 2 0x40
      rx3 ← store rx2 3 0x14
      some (f, some rx3))
    else some (f, some rx)

unfoldable pub read_status : Rx → ℕ → Flash → Transferred
read_status none len f = some (f, none)
read_status (some rx) len f =
    if leb 2 len then (do rx1 ← store rx 1 f.status; some (f, some rx1)) else some (f, some rx)

unfoldable pub write_en : Rx → Flash → Transferred
write_en rx f = some (record f { status = bit_or f.status 2 }, rx)

-- `(addr + (uint8_t)(i - 2u)) % FLASH_SIZE`
abbrev pub slot : ℕ → ℕ → ℕ
slot addr i = (addr + (i - 2) % 256) % flash_size

-- The loop of CMD_READ at index `i`, with `len - i` rounds left; `rx` is not NULL.
unfoldable pub read_loop : ℕ → ℕ → ℕ → List ℕ → List ℕ → Option (List ℕ)
read_loop zero i addr mem rx = some rx
read_loop (suc left) i addr mem rx = do
  b ← get_elem? mem (slot addr i)
  rx' ← store rx i b
  read_loop left (i + 1) addr mem rx'

unfoldable pub read : List ℕ → Rx → ℕ → Flash → Transferred
read tx none len f =
    if leb 2 len then (do addr ← get_elem? tx 1; some (f, none)) else some (f, none)
read tx (some rx) len f =
    if leb 2 len
    then (do addr ← get_elem? tx 1; rx' ← read_loop (len - 2) 2 addr f.mem rx; some (f, some rx'))
    else some (f, some rx)

-- The loop of CMD_PAGE_PROG at index `i`, with `len - i` rounds left.
unfoldable pub prog_loop : ℕ → ℕ → ℕ → List ℕ → List ℕ → Option (List ℕ)
prog_loop zero i addr tx mem = some mem
prog_loop (suc left) i addr tx mem = do
  b ← get_elem? mem (slot addr i)
  x ← get_elem? tx i
  mem' ← store mem (slot addr i) (bit_and b x)
  prog_loop left (i + 1) addr tx mem'

-- `g_status &= (uint8_t)~0x02u`
abbrev pub clear_wel : ℕ → ℕ
clear_wel s = bit_and s 0xfd

unfoldable pub page_prog : List ℕ → Rx → ℕ → Flash → Transferred
page_prog tx rx len f =
    if wel_set f && leb 2 len
    then (do
      addr ← get_elem? tx 1
      mem' ← prog_loop (len - 2) 2 addr tx f.mem
      some (record f { mem = mem'; status = clear_wel f.status }, rx))
    else some (f, rx)

unfoldable pub chip_erase : Rx → Flash → Transferred
chip_erase rx f =
    if wel_set f
    then some (record f { mem = replicate 256 0xff; status = clear_wel f.status }, rx)
    else some (f, rx)

-- The `switch` on `tx[0]`.
unfoldable pub dispatch : ℕ → List ℕ → Rx → ℕ → Flash → Transferred
dispatch cmd tx rx len f =
    if cmd == cmd_jedec_id
    then jedec_id rx len f
    else if cmd == cmd_read_status
    then read_status rx len f
    else if cmd == cmd_write_en
    then write_en rx f
    else if cmd == cmd_read
    then read tx rx len f
    else if cmd == cmd_page_prog
    then page_prog tx rx len f
    else if cmd == cmd_chip_erase
    then chip_erase rx f
    else some (f, rx)

-- `none` is an access out of the range of `tx` or `rx`.
unfoldable pub sim_spi_transfer : Option (List ℕ) → Rx → ℕ → Flash → Transferred
sim_spi_transfer none rx len f = some (f, rx)
sim_spi_transfer (some tx) rx len f =
    if len == 0
    then some (f, rx)
    else do rx' ← fill_rx rx len; cmd ← get_elem? tx 0; dispatch cmd tx rx' len f
