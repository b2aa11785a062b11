-- ===== src/I2c/Refine.antt =====
-- The simulator behaves as a file of 256 registers.
use cppcourse.Base.{
  ℕ, ◌+◌, ◌*◌, ◌/◌, ◌<◌, ◌≡◌, refl, ◌∙◌, sym, ap₂, arith, true, false, List, [], ◌∷◌,
}
use cppcourse.Base.{
  none, some, length, get_or, set, length-set, get_elem?-eq-get_or, bit_or, ℕ_discrete,
}
use cppcourse.Base.{get_or-set_self, get_or-set_ne, ◌==◌, ==_iff, ==_false}
use cppcourse.Base.Bits.{bit_or_step, bit_or-zero, every_below, every_below_lem}
use cppcourse.I2c.{
  Device, power_on, sim_device_init, sim_read_reg, sim_write_reg, sim_set_data_ready,
}
use cppcourse.I2c.Registers.{
  Op, init, read_reg, write_reg, set_data_ready, step, run, Registers, update, defaults, spec_step,
  spec_run, InRange, AllInRange,
}

-- The device holds the file `σ`.
abbrev pub Holds : Device → Registers → Type 0
Holds d none = d.initialized ≡ false
Holds d (some φ) =
    (d.initialized ≡ true) × (length d.regs ≡ 256) × ((r : ℕ) → r < 256 → get_or d.regs r 0 ≡ φ r)

bit_or-one : (a : ℕ) → bit_or a 1 ≡ a / 2 * 2 + 1
bit_or-one a = omega (arith, bit_or_step a 1, bit_or-zero (a / 2))

set-Holds :
    (d : Device) (φ : ℕ → ℕ) (r v : ℕ)
    → Holds d (some φ)
    → r < 256
    → Holds (record d { regs = set d.regs r v }) (some (update φ r v))
set-Holds d φ r v (on, size, same) h = (
  on,
  length-set d.regs r v ∙ size,
  λ q p. elim (ℕ_discrete q r) [
    | yes e ↦ rw (e, (==_iff r r).1 refl) (get_or-set_self d.regs r v 0 (omega arith))
    | no ne ↦ rw (==_false q r ne, get_or-set_ne d.regs r q v 0 (λ e. ne (sym e))) (same q p)
  ],
)

init_table : every_below (λ q. get_or (sim_device_init power_on).regs q 0 == defaults q) 256 ≡ true
unfolding every_below sim_device_init
init_table = refl

init-Holds : (d : Device) → Holds (sim_device_init d) (some defaults)
unfolding sim_device_init
init-Holds d = (refl, refl, λ r p. (==_iff _ _).0 (every_below_lem _ 256 r p init_table))

read_reg-Holds :
    (r : ℕ) (d : Device) (φ : ℕ → ℕ) → r < 256 → Holds d (some φ) → sim_read_reg r d ≡ some (φ r)
unfolding sim_read_reg
read_reg-Holds r d φ h (on, size, same) =
    rw (on, get_elem?-eq-get_or d.regs r 0 (omega arith), same r h)

ready-Holds :
    (d : Device) (φ : ℕ → ℕ)
    → Holds d (some φ)
    → Holds (sim_set_data_ready d) (some (update φ 0x20 (φ 0x20 / 2 * 2 + 1)))
unfolding sim_set_data_ready
ready-Holds d φ (on, size, same) =
    let kept = set-Holds d φ 0x20 (φ 0x20 / 2 * 2 + 1) (on, size, same) (omega arith) in
    rw (on, same 0x20 (omega arith), bit_or-one (φ 0x20)) (refl, kept.1, kept.2)

write_reg-Holds :
    (r v : ℕ) (d : Device) (φ : ℕ → ℕ)
    → r < 256
    → Holds d (some φ)
    → Holds (sim_write_reg r v d).0 (some (update φ r v)) × ((sim_write_reg r v d).1 ≡ true)
unfolding sim_write_reg
write_reg-Holds r v d φ h held =
    let kept = set-Holds d φ r v held h in rw held.0 ((refl, kept.1, kept.2), refl)

step-Holds :
    (op : Op) (d : Device) (σ : Registers)
    → InRange op
    → Holds d σ
    → Holds (step op d).0 (spec_step op σ).0 × ((step op d).1 ≡ (spec_step op σ).1)
unfolding step spec_step
step-Holds init d σ h held = (init-Holds d, refl)
step-Holds (read_reg r) d none h held = (held, unfold sim_read_reg in rw held refl)
step-Holds (read_reg r) d (some φ) h held = (held, rw (read_reg-Holds r d φ h held))
step-Holds (write_reg r v) d none h held = unfold sim_write_reg in rw held (refl, refl)
step-Holds (write_reg r v) d (some φ) h held =
    let (kept, done) = write_reg-Holds r v d φ h held in (kept, rw done)
step-Holds set_data_ready d none h held = (unfold sim_set_data_ready in rw held refl, refl)
step-Holds set_data_ready d (some φ) h held = (ready-Holds d φ held, refl)

-- Whatever calls a driver makes with byte-sized register numbers, its replies are those of the file
-- of 256 registers: an error for each access before the first `init`, then the last value written,
-- the reset value where nothing was written, and bit 0 of register 0x20 set by the ready signal.
pub run_refines :
    (ops : List Op) (d : Device) (σ : Registers)
    → AllInRange ops
    → Holds d σ
    → run ops d ≡ spec_run ops σ
unfolding run spec_run
run_refines [] d σ h held = refl
run_refines (op ∷ ops) d σ h held =
    let (held', same) = step-Holds op d σ h.0 held in
    ap₂ ◌∷◌ same (run_refines ops (step op d).0 (spec_step op σ).0 h.1 held')
