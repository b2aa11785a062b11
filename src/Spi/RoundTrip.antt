-- ===== src/Spi/RoundTrip.antt =====
-- Programming erased memory and reading it back.
use cppcourse.Base.{ℕ, ◌+◌, ◌-◌, ◌≤◌, ◌<◌, ◌≡◌, refl, ap, ◌∙◌, arith, bit_and}
use cppcourse.Base.{
  true, inl, le→leb, List, ◌∷◌, some, none, length, ==_iff, ==_false, ◌==◌, replicate, drop, ◌++◌,
}
use cppcourse.Base.{length-append, length-replicate, length-drop}
use native.Mathlib.Numerals.{towards_suc}
use cppcourse.Base.Bits.{every_below, every_below_lem}
use cppcourse.Spi.{Flash, slot, page_prog, read, fill_rx, dispatch, sim_spi_transfer}
use cppcourse.Spi.Memory.{byte_at, Programmed, prog_loop-Programmed, read_loop-ReadBack}
use cppcourse.Spi.Transfer.{IsValid}

erased_table : every_below (λ x. bit_and 0xff x == x) 256 ≡ true
unfolding every_below
erased_table = refl

erased_and : (x : ℕ) → x < 256 → bit_and 0xff x ≡ x
erased_and x h = (==_iff _ x).0 (every_below_lem _ 256 x h erased_table)

-- With WEL set, programming at most 256 bytes ANDs each into its own place of the memory, round the
-- end of the array, leaves every other place alone, and clears WEL.
pub page_prog_lem :
    (addr : ℕ) (bytes : List ℕ) (f : Flash)
    → IsValid f
    → f.status ≡ 2
    → length bytes ≤ 256
    → (g : Flash) × (sim_spi_transfer (some (0x02 ∷ addr ∷ bytes)) none (length bytes + 2) f
        ≡ some (g, none))
      × IsValid g
      × (g.status ≡ 0)
      × Programmed addr 2 (length bytes + 2) (0x02 ∷ addr ∷ bytes) f.mem g.mem
unfolding sim_spi_transfer dispatch page_prog fill_rx
page_prog_lem addr bytes f v wel short =
    let n = length bytes in
    let (out, returns, done) =
      prog_loop-Programmed addr (0x02 ∷ addr ∷ bytes) n 2 (n + 2) f.mem (omega arith) (omega arith)
        (omega arith) (omega arith) v.size in
    let back : n + 2 - 2 ≡ n = omega arith in
    (
      record { mem = out; status = 0 },
      rw (==_false (n + 2) 0 (omega arith), wel, le→leb 2 (n + 2) (omega arith), back, returns),
      record { size = done.same_length ∙ v.size; state = inl refl },
      refl,
      done,
    )

-- A READ of as many bytes as `out` of the transfer carries sends back the memory from `addr` on,
-- round the end of the array, in a buffer of the length that was given, and changes nothing in the
-- device.
pub read_lem :
    (addr : ℕ) (pad rx : List ℕ) (f : Flash)
    → IsValid f
    → length pad + 2 ≤ length rx
    → (out : List ℕ) × (sim_spi_transfer (some (0x03 ∷ addr ∷ pad)) (some rx) (length pad + 2) f
        ≡ some (f, some out))
      × (length out ≡ length rx)
      × ((j : ℕ) → j < length pad → byte_at out (j + 2) ≡ byte_at f.mem (slot addr (j + 2)))
unfolding sim_spi_transfer dispatch read fill_rx
read_lem addr pad rx f v room =
    let n = length pad in
    let filled : List ℕ = replicate (n + 2) 0xff ++ drop (n + 2) rx in
    let long : n + 2 ≤ length filled = omega (
      arith,
      length-append (replicate {A = ℕ} (n + 2) 0xff) (drop (n + 2) rx),
      length-replicate {A = ℕ} (n + 2) 0xff,
    ) in
    let (out, returns, done) =
      read_loop-ReadBack addr f.mem v.size n 2 (n + 2) filled (omega arith) long in
    let back : n + 2 - 2 ≡ n = omega arith in
    (
      out,
      rw (
        ==_false (n + 2) 0 (omega arith),
        le→leb (n + 2) (length rx) room,
        le→leb 2 (n + 2) (omega arith),
        back,
        returns,
      ),
      omega (
        arith,
        done.same_length,
        length-append (replicate {A = ℕ} (n + 2) 0xff) (drop (n + 2) rx),
        length-replicate {A = ℕ} (n + 2) 0xff,
        length-drop (n + 2) rx,
      ),
      λ j h. done.inside (j + 2) (omega arith) (omega arith),
    )

-- On a valid device with WEL set and every byte erased, programming at most 256 bytes from any
-- address and then reading that many from the same address gives back exactly those bytes, also
-- where the range goes round the end of the memory.
pub read-page_prog :
    (addr : ℕ) (bytes pad rx : List ℕ) (f : Flash)
    → IsValid f
    → f.status ≡ 2
    → ((p : ℕ) → p < 256 → byte_at f.mem p ≡ 0xff)
    → length bytes ≤ 256
    → ((j : ℕ) → j < length bytes → byte_at bytes j < 256)
    → length pad ≡ length bytes
    → length pad + 2 ≤ length rx
    → (g : Flash) × (out : List ℕ) × (sim_spi_transfer
          (some (0x02 ∷ addr ∷ bytes))
          none
          (length bytes + 2)
          f
        ≡ some (g, none))
      × (sim_spi_transfer (some (0x03 ∷ addr ∷ pad)) (some rx) (length pad + 2) g
          ≡ some (g, some out))
      × ((j : ℕ) → j < length bytes → byte_at out (j + 2) ≡ byte_at bytes j)
read-page_prog addr bytes pad rx f v wel erased short small same room =
    let (g, programmed, v', _, done) = page_prog_lem addr bytes f v wel short in
    let (out, sent, _, inside) = read_lem addr pad rx g v' room in
    (
      g,
      out,
      programmed,
      sent,
      λ j h.
          let tail : byte_at (0x02 ∷ addr ∷ bytes) (j + 2) ≡ byte_at bytes j = simp towards_suc in
          inside j (omega arith)
          ∙ done.written (j + 2) (omega arith) (omega arith)
          ∙ ap (λ (t : ℕ). bit_and t (byte_at (0x02 ∷ addr ∷ bytes) (j + 2)))
              (erased (slot addr (j + 2)) (omega arith))
          ∙ ap (bit_and 0xff) tail
          ∙ erased_and (byte_at bytes j) (small j h),
    )
