-- ===== src/Spi/Commands.antt =====
-- The commands of the flash as a driver sends them through `sim_spi_transfer`, and what a flash chip
-- promises for them, without buffers, a command byte or a status byte.
use cppcourse.Base.{
  ℕ, zero, suc, ◌+◌, ◌-◌, ◌%◌, ◌≤◌, Bool, true, false, List, [], ◌∷◌, Option, none, some, length,
  replicate, drop, get_or, bit_and, ltb,
}
use cppcourse.Base.{if◌then◌else◌}
use cppcourse.Base.Checked.{◌>>=◌}
use cppcourse.Spi.{Flash, Rx, sim_spi_transfer}

pub data Command : Type 0 where
  get_id : Command
  get_status : Command
  enable_write : Command
  read_data : ℕ → ℕ → Command
  program : ℕ → List ℕ → Command
  erase : Command

-- What is received behind the first `skip` bytes.
abbrev pub received : ℕ → Rx → List ℕ
received skip none = []
received skip (some rx) = drop skip rx

abbrev pub exchange : List ℕ → Rx → ℕ → ℕ → Flash → Option (Flash × List ℕ)
exchange tx rx len skip f = do
  (g, rx') ← sim_spi_transfer (some tx) rx len f
  some (g, received skip rx')

unfoldable pub send : Command → Flash → Option (Flash × List ℕ)
send get_id f = exchange (0x9f ∷ 0 ∷ 0 ∷ 0 ∷ []) (some (replicate 4 0)) 4 1 f
send get_status f = exchange (0x05 ∷ 0 ∷ []) (some (replicate 2 0)) 2 1 f
send enable_write f = exchange (0x06 ∷ []) none 1 0 f
send (read_data addr n) f =
    exchange (0x03 ∷ addr ∷ replicate n 0) (some (replicate (n + 2) 0)) (n + 2) 2 f
send (program addr bytes) f = exchange (0x02 ∷ addr ∷ bytes) none (length bytes + 2) 0 f
send erase f = exchange (0x60 ∷ []) none 1 0 f

-- The replies to a sequence of commands.
unfoldable pub run : List Command → Flash → Option (List (List ℕ))
run [] f = some []
run (c ∷ cs) f = do (g, reply) ← send c f; replies ← run cs g; some (reply ∷ replies)

-- A chip of 256 cells.
pub record Chip : Type 0 where
  pub cells : ℕ → ℕ
  pub writable : Bool

-- The `n` cells from `addr + i` on, round the end.
abbrev pub cells_from : (ℕ → ℕ) → ℕ → ℕ → ℕ → List ℕ
cells_from φ addr i zero = []
cells_from φ addr i (suc n) = φ ((addr + i) % 256) ∷ cells_from φ addr (suc i) n

-- How far cell `p` lies behind `addr`, round the end.
abbrev pub distance : ℕ → ℕ → ℕ
distance addr p = (p + 256 - addr % 256) % 256

abbrev pub programmed : (ℕ → ℕ) → ℕ → List ℕ → ℕ → ℕ
programmed φ addr bytes p =
    if ltb (distance addr p) (length bytes)
    then bit_and (φ p) (get_or bytes (distance addr p) 0)
    else φ p

unfoldable pub spec_step : Command → Chip → Chip × List ℕ
spec_step get_id c = (c, 0xef ∷ 0x40 ∷ 0x14 ∷ [])
spec_step get_status c = (c, (if c.writable then 2 else 0) ∷ [])
spec_step enable_write c = (record { cells = c.cells; writable = true }, [])
spec_step (read_data addr n) c = (c, cells_from c.cells addr 0 n)
spec_step (program addr bytes) c = (
  if c.writable then record { cells = programmed c.cells addr bytes; writable = false } else c,
  [],
)
spec_step erase c = (if c.writable then record { cells = λ p. 0xff; writable = false } else c, [])

unfoldable pub spec_run : List Command → Chip → List (List ℕ)
spec_run [] c = []
spec_run (cmd ∷ cmds) c = let (c', reply) = spec_step cmd c in reply ∷ spec_run cmds c'

-- At most 256 bytes are programmed at a time.
abbrev pub Short : Command → Type 0
Short (program addr bytes) = length bytes ≤ 256
Short cmd = Unit {0}

abbrev pub AllShort : List Command → Type 0
AllShort [] = Unit {0}
AllShort (cmd ∷ cmds) = Short cmd × AllShort cmds
