-- ===== src/I2c.antt =====
-- The register simulator of content/exercises/el5/01-i2c-dummy/starter.c. Register numbers and
-- values are `uint8_t`, numbers below 256.
pub mod Registers
pub mod Refine
pub mod Driver
mod Tests
use cppcourse.Base.{
  ℕ, Bool, true, false, List, Option, none, some, get_elem?, get_or, set, replicate,
}
use cppcourse.Base.{bit_or, if◌then◌else◌}

-- `g_regs` and `g_initialized`.
pub record Device : Type 0 where
  pub regs : List ℕ
  pub initialized : Bool

-- The static objects before `sim_device_init`.
abbrev pub power_on : Device
power_on = record { regs = replicate 256 0; initialized = false }

unfoldable pub sim_device_init : Device → Device
sim_device_init d =
    let zeroed : List ℕ = replicate 256 0 in
    let r00 = set zeroed 0x00 0x42 in
    let r01 = set r00 0x01 0x00 in
    let r02 = set r01 0x02 0x18 in
    let r10 = set r02 0x10 0x03 in
    let r11 = set r10 0x11 0xe8 in
    let r20 = set r11 0x20 0x00 in record { regs = r20; initialized = true }

-- `none` is the -1 of a bus error.
unfoldable pub sim_read_reg : ℕ → Device → Option ℕ
sim_read_reg reg d = if d.initialized then get_elem? d.regs reg else none

-- `true` is the 0 of success, `false` the -1 of a bus error.
unfoldable pub sim_write_reg : ℕ → ℕ → Device → Device × Bool
sim_write_reg reg val d =
    if d.initialized then (record d { regs = set d.regs reg val }, true) else (d, false)

unfoldable pub sim_set_data_ready : Device → Device
sim_set_data_ready d =
    if d.initialized
    then record d { regs = set d.regs 0x20 (bit_or (get_or d.regs 0x20 0) 0x01) }
    else d
