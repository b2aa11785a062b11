-- ===== src/Spi/Refine.antt =====
-- The simulator keeps the promises of a flash chip.
use cppcourse.Base.{
  ℕ, zero, suc, ◌+◌, ◌%◌, ◌≤◌, ◌<◌, ◌≡◌, refl, sym, ap, ap₂, ◌∙◌, arith, inl, inr, Bool, true,
  false,
}
use cppcourse.Base.{
  List, [], ◌∷◌, some, length, replicate, drop, get_or, bit_and, ltb, length-replicate, length-drop,
  get_or-drop, get_or_ext, get_or-replicate, dec_lt, lt→ltb, if◌then◌else◌,
}
use native.Mathlib.Numerals.{towards_suc}
use cppcourse.Spi.{
  Flash, slot, sim_spi_transfer, dispatch, jedec_id, read_status, write_en, page_prog, chip_erase,
  fill_rx,
}
use cppcourse.Spi.Memory.{byte_at, Programmed}
use cppcourse.Spi.Transfer.{IsValid}
use cppcourse.Spi.RoundTrip.{page_prog_lem, read_lem}
use cppcourse.Spi.Commands.{
  Command, get_id, get_status, enable_write, read_data, program, erase, send, run, Chip, cells_from,
  distance, programmed, spec_step, spec_run, Short, AllShort,
}

-- The device holds the chip's cells, and WEL is set if the chip is writable.
pub record Holds (f : Flash) (c : Chip) : Type 0 where
  pub valid : IsValid f
  pub same : (p : ℕ) → p < 256 → byte_at f.mem p ≡ c.cells p
  pub wel : f.status ≡ (if c.writable then 2 else 0)

-- A command is answered as the chip answers it, and the device holds the chip afterwards.
abbrev Answered : Command → Flash → Chip → Type 0
Answered cmd f c =
    (g : Flash) × (send cmd f ≡ some (g, (spec_step cmd c).1)) × Holds g (spec_step cmd c).0

enable_write-Answered : (f : Flash) (c : Chip) → Holds f c → Answered enable_write f c
unfolding send spec_step sim_spi_transfer dispatch write_en fill_rx
enable_write-Answered f c h = (
  record { mem = f.mem; status = 2 },
  elim h.valid.state [ inl e ↦ rw e | inr e ↦ rw e ],
  record { valid = record { size = h.valid.size; state = inr refl }; same = h.same; wel = refl },
)

get_id-Answered : (f : Flash) (c : Chip) → Holds f c → Answered get_id f c
unfolding send spec_step sim_spi_transfer dispatch jedec_id fill_rx
get_id-Answered f c h = (f, refl, h)

get_status-Answered : (f : Flash) (c : Chip) → Holds f c → Answered get_status f c
unfolding send spec_step sim_spi_transfer dispatch read_status fill_rx
get_status-Answered f c h = (f, ap (λ (t : ℕ). some (f, t ∷ [])) h.wel, h)

not_near : (d n : ℕ) → ¬ (d < n) → ltb d n ≡ false
not_near d n far = ground arith

length-cells_from : (φ : ℕ → ℕ) (addr k n : ℕ) → length (cells_from φ addr k n) ≡ n
length-cells_from φ addr k zero = refl
length-cells_from φ addr k (suc n) = ap suc (length-cells_from φ addr (suc k) n)

get_or-cells_from :
    (φ : ℕ → ℕ) (addr k n i : ℕ)
    → i < n
    → get_or (cells_from φ addr k n) i 0 ≡ φ ((addr + (k + i)) % 256)
get_or-cells_from φ addr k zero i h = absurd (omega arith)
get_or-cells_from φ addr k (suc n) zero h = ap φ (omega arith)
get_or-cells_from φ addr k (suc n) (suc i) h =
    get_or-cells_from φ addr (suc k) n i (omega arith) ∙ ap φ (omega arith)

drop-cells_from :
    (f : Flash) (φ : ℕ → ℕ) (addr n : ℕ) (out : List ℕ)
    → length out ≡ n + 2
    → ((p : ℕ) → p < 256 → byte_at f.mem p ≡ φ p)
    → ((j : ℕ) → j < n → byte_at out (j + 2) ≡ byte_at f.mem (slot addr (j + 2)))
    → drop 2 out ≡ cells_from φ addr 0 n
drop-cells_from f φ addr n out whole same inside =
    let size = length-drop 2 out in
    get_or_ext 0 (drop 2 out) (cells_from φ addr 0 n)
      (omega (arith, size, whole, length-cells_from φ addr 0 n))
      (λ i h.
        get_or-drop 2 out i 0
        ∙ ap (byte_at out) (omega arith)
        ∙ inside i (omega (arith, size))
        ∙ same (slot addr (i + 2)) (omega arith)
        ∙ ap φ (omega arith)
        ∙ sym (get_or-cells_from φ addr 0 n i (omega (arith, size))))

programmed-same :
    (f g : Flash) (φ : ℕ → ℕ) (addr : ℕ) (bytes : List ℕ)
    → length bytes ≤ 256
    → ((p : ℕ) → p < 256 → byte_at f.mem p ≡ φ p)
    → Programmed addr 2 (length bytes + 2) (0x02 ∷ addr ∷ bytes) f.mem g.mem
    → (p : ℕ) → p < 256
    → byte_at g.mem p ≡ programmed φ addr bytes p
programmed-same f g φ addr bytes short same done p below =
    elim (dec_lt (distance addr p) (length bytes)) [
      | yes near ↦
          let d = distance addr p in
          let place : slot addr (d + 2) ≡ p = omega arith in
          let tail : byte_at (0x02 ∷ addr ∷ bytes) (d + 2) ≡ get_or bytes d 0 = simp towards_suc in
          rw (lt→ltb d (length bytes) near) (
            ap (byte_at g.mem) (sym place)
            ∙ done.written (d + 2) (omega arith) (omega arith)
            ∙ ap₂ bit_and (ap (byte_at f.mem) place ∙ same p below) tail)
      | no far ↦
          rw (not_near (distance addr p) (length bytes) far)
            (done.outside p (λ j a b e. far (omega arith)) ∙ same p below)
    ]

module _ (f : Flash) (φ : ℕ → ℕ) where
  erase-Answered :
      (b : Bool)
      → Holds f (record { cells = φ; writable = b })
      → Answered erase f (record { cells = φ; writable = b })
  unfolding send spec_step sim_spi_transfer dispatch chip_erase fill_rx
  erase-Answered false h = (f, ground (arith, h.wel), h)
  erase-Answered true h = (
    record { mem = replicate 256 0xff; status = 0 },
    ground (arith, h.wel),
    record {
      valid = record { size = refl; state = inl refl };
      same = λ p below. get_or-replicate 256 p 0xff 0 below;
      wel = refl;
    },
  )

  read_data-Answered :
      (addr n : ℕ) (b : Bool)
      → Holds f (record { cells = φ; writable = b })
      → Answered (read_data addr n) f (record { cells = φ; writable = b })
  unfolding send spec_step
  read_data-Answered addr n b h =
      let size = length-replicate {A = ℕ} n 0 in
      let (out, returns, whole, inside) =
        read_lem addr (replicate n 0) (replicate (n + 2) 0) f h.valid
          (omega (arith, size, length-replicate {A = ℕ} (n + 2) 0)) in
      let returns' : sim_spi_transfer (some (0x03 ∷ addr ∷ replicate n 0))
            (some (replicate (n + 2) 0)) (n + 2) f
          ≡ some (f, some out) =
        ap
          (λ (t : ℕ).
            sim_spi_transfer (some (0x03 ∷ addr ∷ replicate n 0)) (some (replicate (n + 2) 0))
              (t + 2) f)
          (sym size)
        ∙ returns in
      (
        f,
        rw returns' (
            ap (λ (t : List ℕ). some (f, t))
              (drop-cells_from f φ addr n out
                (omega (arith, whole, length-replicate {A = ℕ} (n + 2) 0)) h.same
                (λ j p. inside j (omega (arith, size))))),
        h,
      )

  program-Answered :
      (addr : ℕ) (bytes : List ℕ) (b : Bool)
      → length bytes ≤ 256
      → Holds f (record { cells = φ; writable = b })
      → Answered (program addr bytes) f (record { cells = φ; writable = b })
  unfolding send spec_step sim_spi_transfer dispatch page_prog fill_rx
  program-Answered addr bytes false short h = (f, ground (arith, h.wel), h)
  program-Answered addr bytes true short h =
      let (g, returns, valid, wel, done) = page_prog_lem addr bytes f h.valid h.wel short in
      (
        g,
        rw returns,
        record {
          valid = valid;
          same = programmed-same f g φ addr bytes short h.same done;
          wel = wel;
        },
      )

send-Answered : (cmd : Command) (f : Flash) (c : Chip) → Short cmd → Holds f c → Answered cmd f c
send-Answered get_id f c short h = get_id-Answered f c h
send-Answered get_status f c short h = get_status-Answered f c h
send-Answered enable_write f c short h = enable_write-Answered f c h
send-Answered (read_data addr n) f c short h = read_data-Answered f c.cells addr n c.writable h
send-Answered (program addr bytes) f c short h =
    program-Answered f c.cells addr bytes c.writable short h
send-Answered erase f c short h = erase-Answered f c.cells c.writable h

-- Whatever commands a driver sends to a device that holds a chip, at most 256 bytes being programmed
-- at a time, every transfer returns, and the replies are those of the chip: its identity and status,
-- and on a read the cells, which a program command can only clear bits of, and only after the
-- writable state was entered, which it ends.
pub run-spec_run :
    (cmds : List Command) (f : Flash) (c : Chip)
    → AllShort cmds
    → Holds f c
    → run cmds f ≡ some (spec_run cmds c)
unfolding run spec_run
run-spec_run [] f c short h = refl
run-spec_run (cmd ∷ cmds) f c short h =
    let (g, returns, held) = send-Answered cmd f c short.0 h in
    rw (returns, run-spec_run cmds g (spec_step cmd c).0 short.1 held)
