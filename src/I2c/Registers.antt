-- ===== src/I2c/Registers.antt =====
-- A file of registers as a function, what the simulator promises, and the calls of a driver.
use cppcourse.Base.{ℕ, ◌+◌, ◌*◌, ◌/◌, ◌<◌, Bool, true, false, List, [], ◌∷◌, Option, none, some}
use cppcourse.Base.{◌==◌, if◌then◌else◌}
use cppcourse.I2c.{Device, sim_device_init, sim_read_reg, sim_write_reg, sim_set_data_ready}

pub data Op : Type 0 where
  init : Op
  read_reg : ℕ → Op
  write_reg : ℕ → ℕ → Op
  set_data_ready : Op

-- What the caller sees of a call: nothing, the value or error of a read, the success of a write.
pub data Reply : Type 0 where
  nothing : Reply
  value : Option ℕ → Reply
  success : Bool → Reply

unfoldable pub step : Op → Device → Device × Reply
step init d = (sim_device_init d, nothing)
step (read_reg r) d = (d, value (sim_read_reg r d))
step (write_reg r v) d = let (d', done) = sim_write_reg r v d in (d', success done)
step set_data_ready d = (sim_set_data_ready d, nothing)

unfoldable pub run : List Op → Device → List Reply
run [] d = []
run (op ∷ ops) d = let (d', reply) = step op d in reply ∷ run ops d'

-- Before the first `init` there is no register file.
abbrev pub Registers : Type 0
Registers = Option (ℕ → ℕ)

abbrev pub update : (ℕ → ℕ) → ℕ → ℕ → ℕ → ℕ
update φ r v q = if q == r then v else φ q

-- The values after a reset.
abbrev pub defaults : ℕ → ℕ
defaults q =
    if q == 0x00
    then 0x42
    else if q == 0x02
    then 0x18
    else if q == 0x10
    then 0x03
    else if q == 0x11
    then 0xe8
    else 0

unfoldable pub spec_step : Op → Registers → Registers × Reply
spec_step init σ = (some defaults, nothing)
spec_step (read_reg r) none = (none, value none)
spec_step (read_reg r) (some φ) = (some φ, value (some (φ r)))
spec_step (write_reg r v) none = (none, success false)
spec_step (write_reg r v) (some φ) = (some (update φ r v), success true)
spec_step set_data_ready none = (none, nothing)
spec_step set_data_ready (some φ) = (some (update φ 0x20 (φ 0x20 / 2 * 2 + 1)), nothing)

unfoldable pub spec_run : List Op → Registers → List Reply
spec_run [] σ = []
spec_run (op ∷ ops) σ = let (σ', reply) = spec_step op σ in reply ∷ spec_run ops σ'

-- The register numbers are bytes.
abbrev pub InRange : Op → Type 0
InRange (read_reg r) = r < 256
InRange (write_reg r v) = r < 256
InRange op = Unit {0}

abbrev pub AllInRange : List Op → Type 0
AllInRange [] = Unit {0}
AllInRange (op ∷ ops) = InRange op × AllInRange ops
