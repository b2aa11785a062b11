-- ===== src/I2c/Tests.antt =====
-- Runs of the register simulator.
use cppcourse.Base.{◌≡◌, refl, arith, List, [], ◌∷◌, some, none, false, true}
use cppcourse.I2c.{power_on, sim_device_init, sim_read_reg, sim_write_reg, sim_set_data_ready}
use cppcourse.I2c.Registers.{step}
use cppcourse.I2c.Registers.{
  Op, init, read_reg, write_reg, set_data_ready, value, success, nothing, run, spec_run,
}
use cppcourse.I2c.Refine.{run_refines}

abbrev calls : List Op
calls =
    read_reg 0x10
    ∷ write_reg 0x10 7
    ∷ init
    ∷ write_reg 0x10 7
    ∷ set_data_ready
    ∷ read_reg 0x20
    ∷ read_reg 0x10
    ∷ []

run_test :
    run calls power_on
    ≡ value none
      ∷ success false
      ∷ nothing
      ∷ success true
      ∷ nothing
      ∷ value (some 1)
      ∷ value (some 7)
      ∷ []
unfolding run step sim_read_reg sim_write_reg sim_device_init sim_set_data_ready
run_test = refl

run_refines_example : run calls power_on ≡ spec_run calls none
run_refines_example =
    run_refines calls power_on none
      (omega arith, (omega arith, (tt, (omega arith, (tt, (omega arith, (omega arith, tt))))))) refl
