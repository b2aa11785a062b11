-- ===== src/Spi/Tests.antt =====
-- Runs of the flash simulator.
use cppcourse.Base.{ℕ, ◌<◌, ◌≡◌, refl, arith, List, [], ◌∷◌, some, none, replicate, inl, inr}
use cppcourse.Base.{zero, suc, ◌+◌, true}
use cppcourse.Base.{false, get_or-replicate}
use cppcourse.Spi.Commands.{
  Command, enable_write, read_data, program, get_status, run, Chip, spec_step, spec_run,
}
use cppcourse.Spi.Refine.{Holds, run-spec_run}
use cppcourse.Spi.{Flash, power_on, sim_flash_init, sim_spi_transfer}
use cppcourse.Spi.Memory.{byte_at}
use cppcourse.Spi.Transfer.{IsValid, Completes, sim_spi_transfer-Completes}
use cppcourse.Spi.RoundTrip.{read-page_prog}
use cppcourse.Spi.Session.{Request, session, session-locked, session-SubMask}
use cppcourse.Base.Bits.{SubMask, every_below, every_below_lem}
use cppcourse.Base.{◌==◌, ==_iff}

-- An erased device with WEL set.
abbrev writable : Flash
writable = record { mem = replicate 256 0xff; status = 2 }

abbrev erased : Flash
erased = record { mem = replicate 256 0xff; status = 0 }

writable-IsValid : IsValid writable
writable-IsValid = record { size = refl; state = inr refl }

erased-IsValid : IsValid erased
erased-IsValid = record { size = refl; state = inl refl }

init_test : sim_flash_init power_on ≡ erased
unfolding sim_flash_init
init_test = refl

sim_spi_transfer-Completes_example :
    Completes 4 writable (sim_spi_transfer (some (0x02 ∷ 0xff ∷ 0x12 ∷ 0x34 ∷ [])) none 4 writable)
sim_spi_transfer-Completes_example =
    sim_spi_transfer-Completes (some (0x02 ∷ 0xff ∷ 0x12 ∷ 0x34 ∷ [])) none 4 writable
      writable-IsValid (omega arith) tt

-- A program command, a read and an erase, none of which follows a WRITE_EN.
abbrev unprotected : List Request
unprotected =
    record { tx = some (0x02 ∷ 0x10 ∷ 0x00 ∷ []); rx = none; len = 3 }
    ∷ record { tx = some (0x03 ∷ 0x10 ∷ 0x00 ∷ []); rx = some (replicate 3 0); len = 3 }
    ∷ record { tx = some (0x60 ∷ []); rx = none; len = 1 }
    ∷ []

session-locked_example : session unprotected erased ≡ some erased
session-locked_example =
    session-locked unprotected erased erased-IsValid refl
      ((omega arith, tt), ((omega arith, omega arith), ((omega arith, tt), tt)))
      ((λ e. omega arith), ((λ e. omega arith), ((λ e. omega arith), tt)))

abbrev programs : List Request
programs =
    record { tx = some (0x06 ∷ []); rx = none; len = 1 }
    ∷ record { tx = some (0x02 ∷ 0x10 ∷ 0x5a ∷ []); rx = none; len = 3 }
    ∷ []

session-SubMask_example :
    (g : Flash) × (session programs erased ≡ some g)
    × IsValid g
    × ((p : ℕ) → SubMask (byte_at g.mem p) (byte_at erased.mem p))
session-SubMask_example =
    session-SubMask programs erased erased-IsValid ((omega arith, tt), ((omega arith, tt), tt))
      ((λ e. omega arith), ((λ e. omega arith), tt))

erased_bytes : every_below (λ p. byte_at writable.mem p == 0xff) 256 ≡ true
unfolding every_below
erased_bytes = refl

small_bytes : (j : ℕ) → j < 2 → byte_at (0x12 ∷ 0x34 ∷ []) j < 256
small_bytes zero h = omega arith
small_bytes (suc zero) h = omega arith
small_bytes (suc (suc j)) h = absurd (omega arith)

-- The second byte goes round the end of the memory.
read-page_prog_example :
    (g : Flash) × (out : List ℕ) × (sim_spi_transfer
        (some (0x02 ∷ 0xff ∷ 0x12 ∷ 0x34 ∷ []))
        none
        4
        writable
      ≡ some (g, none))
    × (sim_spi_transfer (some (0x03 ∷ 0xff ∷ 0 ∷ 0 ∷ [])) (some (0 ∷ 0 ∷ 0 ∷ 0 ∷ [])) 4 g
        ≡ some (g, some out))
    × ((j : ℕ) → j < 2 → byte_at out (j + 2) ≡ byte_at (0x12 ∷ 0x34 ∷ []) j)
read-page_prog_example =
    read-page_prog 0xff (0x12 ∷ 0x34 ∷ []) (0 ∷ 0 ∷ []) (0 ∷ 0 ∷ 0 ∷ 0 ∷ []) writable
      writable-IsValid refl (λ p h. (==_iff _ 0xff).0 (every_below_lem _ 256 p h erased_bytes))
      (omega arith) small_bytes refl (omega arith)

abbrev blank : Chip
blank = record { cells = λ p. 0xff; writable = false }

erased-Holds : Holds erased blank
erased-Holds = record {
  valid = erased-IsValid;
  same = λ p below. get_or-replicate 256 p 0xff 0 below;
  wel = refl;
}

abbrev commands : List Command
commands =
    program 0xff (0x12 ∷ [])
    ∷ enable_write
    ∷ program 0xff (0x12 ∷ 0x34 ∷ [])
    ∷ read_data 0xfe 4
    ∷ get_status
    ∷ []

-- The first program command is without effect, and the second goes round the end.
spec_run_test :
    spec_run commands blank ≡ [] ∷ [] ∷ [] ∷ (0xff ∷ 0x12 ∷ 0x34 ∷ 0xff ∷ []) ∷ (0 ∷ []) ∷ []
unfolding spec_run spec_step
spec_run_test = refl

run-spec_run_example : run commands erased ≡ some (spec_run commands blank)
run-spec_run_example =
    run-spec_run commands erased blank (omega arith, (tt, (omega arith, (tt, (tt, tt)))))
      erased-Holds
