-- ===== src/Spi/Transfer.antt =====
-- One call of `sim_spi_transfer`: it stays inside its buffers, and what it may do to the memory.
use cppcourse.Base.{ℕ, zero, suc, ◌-◌, ◌≤◌, ◌≡◌, refl, ◌∙◌, ◌⊎◌, inl, inr, arith}
use cppcourse.Base.{List, Option, some, none, length, replicate}
use cppcourse.Base.{drop, ◌++◌, length-append, length-replicate, length-drop, length-set, set}
use cppcourse.Base.{==_false, get_elem?-eq-get_or, ◌==◌, Bool-cases, leb}
use cppcourse.Spi.{
  Flash, Rx, Transferred, fill_rx, jedec_id, read_status, write_en, read, page_prog, chip_erase,
  dispatch, sim_spi_transfer, cmd_chip_erase, cmd_jedec_id, cmd_read_status, cmd_write_en, cmd_read,
  cmd_page_prog,
}
use cppcourse.Spi.Memory.{byte_at, prog_loop-Cleared, read_loop-ReadBack}

-- The device holds 256 bytes, is never busy, and has no status bit but WEL.
pub record IsValid (f : Flash) : Type 0 where
  pub size : length f.mem ≡ 256
  pub state : (f.status ≡ 0) ⊎ (f.status ≡ 2)

-- A receive buffer that is not NULL has room for the transfer.
abbrev pub RxFits : Rx → ℕ → Type 0
RxFits none len = Unit {0}
RxFits (some rx) len = len ≤ length rx

-- The call returns, with the device valid, and touches the memory only if WEL was set.
pub record Completes (len : ℕ) (f : Flash) (t : Transferred) : Type 0 where
  pub after : Flash
  pub received : Rx
  pub returns : t ≡ some (after, received)
  pub valid : IsValid after
  pub fits : RxFits received len
  pub protected : (f.status ≡ 2) ⊎ (after.mem ≡ f.mem)

keeps :
    {len : ℕ} {f : Flash} {t : Transferred} (rx : Rx)
    → t ≡ some (f, rx)
    → IsValid f
    → RxFits rx len
    → Completes len f t
keeps {f = f} rx e v fits = record {
  after = f;
  received = rx;
  returns = e;
  valid = v;
  fits = fits;
  protected = inr refl;
}

fill_rx_lem :
    (rx : Rx) (len : ℕ) → RxFits rx len → (rx' : Rx) × (fill_rx rx len ≡ some rx') × RxFits rx' len
unfolding fill_rx
fill_rx_lem none len h = (none, refl, tt)
fill_rx_lem (some rx) len h = (
  some (replicate len 0xff ++ drop len rx),
  ground arith,
  omega (
    arith,
    length-append (replicate len 0xff) (drop len rx),
    length-replicate {A = ℕ} len 0xff,
    length-drop len rx,
  ),
)

module _ (len : ℕ) (f : Flash) (v : IsValid f) where
  jedec_id-Completes : (rx : Rx) → RxFits rx len → Completes len f (jedec_id rx len f)
  unfolding jedec_id
  jedec_id-Completes none h = keeps none refl v tt
  jedec_id-Completes (some rx) h = elim (Bool-cases (leb 4 len)) [
    | inr short ↦ keeps (some rx) (rw short) v h
    | inl long ↦
        keeps (some (set (set (set rx 1 0xef) 2 0x40) 3 0x14))
          (ground (arith, length-set rx 1 0xef, length-set (set rx 1 0xef) 2 0x40)) v
          (omega (
            arith,
            length-set rx 1 0xef,
            length-set (set rx 1 0xef) 2 0x40,
            length-set (set (set rx 1 0xef) 2 0x40) 3 0x14,
            h,
          ))
  ]

  read_status-Completes : (rx : Rx) → RxFits rx len → Completes len f (read_status rx len f)
  unfolding read_status
  read_status-Completes none h = keeps none refl v tt
  read_status-Completes (some rx) h = elim (Bool-cases (leb 2 len)) [
    | inr short ↦ keeps (some rx) (rw short) v h
    | inl long ↦
        keeps (some (set rx 1 f.status)) (ground arith) v
          (omega (arith, length-set rx 1 f.status, h))
  ]

  write_en-Completes : (rx : Rx) → RxFits rx len → Completes len f (write_en rx f)
  unfolding write_en
  write_en-Completes rx h = record {
    after = record f { status = 2 };
    received = rx;
    returns = elim v.state [ inl e ↦ rw e | inr e ↦ rw e ];
    valid = record { size = v.size; state = inr refl };
    fits = h;
    protected = inr refl;
  }

  chip_erase-Completes : (rx : Rx) → RxFits rx len → Completes len f (chip_erase rx f)
  unfolding chip_erase
  chip_erase-Completes rx h = elim v.state [
    | inl e ↦ keeps rx (rw e) v h
    | inr e ↦ record {
      after = record { mem = replicate 256 0xff; status = 0 };
      received = rx;
      returns = rw e;
      valid = record { size = refl; state = inl refl };
      fits = h;
      protected = inl e;
    }
  ]

  module _ (tx : List ℕ) (sent : len ≤ length tx) where
    read-Completes : (rx : Rx) → RxFits rx len → Completes len f (read tx rx len f)
    unfolding read
    read-Completes none h = keeps none (ground (arith, get_elem?-eq-get_or tx 1 0)) v tt
    read-Completes (some rx) h = elim (Bool-cases (leb 2 len)) [
      | inr short ↦ keeps (some rx) (rw short) v h
      | inl long ↦
          let (out, returns, done) =
            read_loop-ReadBack (byte_at tx 1) f.mem v.size (len - 2) 2 len rx (ground arith) h in
          keeps (some out) (ground (arith, get_elem?-eq-get_or tx 1 0)) v
            (omega (arith, done.same_length, h))
    ]

    page_prog-Completes : (rx : Rx) → RxFits rx len → Completes len f (page_prog tx rx len f)
    unfolding page_prog
    page_prog-Completes rx h = elim v.state [
      | inl e ↦ keeps rx (rw e) v h
      | inr e ↦ elim (Bool-cases (leb 2 len)) [
        | inr short ↦ keeps rx (rw (e, short)) v h
        | inl long ↦
            let (out, returns, done) =
              prog_loop-Cleared (byte_at tx 1) tx (len - 2) 2 f.mem (ground arith) v.size in
            record {
              after = record { mem = out; status = 0 };
              received = rx;
              returns = rw (e, long, get_elem?-eq-get_or tx 1 0 (ground arith), returns);
              valid = record { size = done.same_length ∙ v.size; state = inl refl };
              fits = h;
              protected = inl e;
            }
      ]
    ]

dispatch-Completes :
    (cmd len : ℕ) (tx : List ℕ) (f : Flash) (rx : Rx)
    → IsValid f
    → len ≤ length tx
    → RxFits rx len
    → Completes len f (dispatch cmd tx rx len f)
unfolding dispatch
dispatch-Completes cmd len tx f rx v sent h = elim (Bool-cases (cmd == cmd_jedec_id)) [
  | inl e ↦ rw e (jedec_id-Completes len f v rx h)
  | inr a ↦ elim (Bool-cases (cmd == cmd_read_status)) [
    | inl e ↦ rw (a, e) (read_status-Completes len f v rx h)
    | inr b ↦ elim (Bool-cases (cmd == cmd_write_en)) [
      | inl e ↦ rw (a, b, e) (write_en-Completes len f v rx h)
      | inr c ↦ elim (Bool-cases (cmd == cmd_read)) [
        | inl e ↦ rw (a, b, c, e) (read-Completes len f v tx sent rx h)
        | inr d ↦ elim (Bool-cases (cmd == cmd_page_prog)) [
          | inl e ↦ rw (a, b, c, d, e) (page_prog-Completes len f v tx sent rx h)
          | inr g ↦ elim (Bool-cases (cmd == cmd_chip_erase)) [
            | inl e ↦ rw (a, b, c, d, g, e) (chip_erase-Completes len f v rx h)
            | inr i ↦ rw (a, b, c, d, g, i) (keeps rx refl v h)
          ]
        ]
      ]
    ]
  ]
]

-- For a valid device, a `tx` that is NULL or holds `len` bytes and an `rx` that is NULL or has room
-- for `len`, a transfer accesses nothing out of range and returns; the device is valid after it and
-- `rx` has kept its room; and either WEL was set before it or the memory is unchanged.
pub sim_spi_transfer-Completes :
    (tx : Option (List ℕ)) (rx : Rx) (len : ℕ) (f : Flash)
    → IsValid f
    → RxFits tx len
    → RxFits rx len
    → Completes len f (sim_spi_transfer tx rx len f)
unfolding sim_spi_transfer
sim_spi_transfer-Completes none rx len f v sent h = keeps rx refl v h
sim_spi_transfer-Completes (some tx) rx zero f v sent h = keeps rx refl v h
sim_spi_transfer-Completes (some tx) rx (suc len) f v sent h =
    let (rx', filled, room) = fill_rx_lem rx (suc len) h in
    rw (==_false (suc len) 0 (omega arith), filled, get_elem?-eq-get_or tx 0 0 (omega arith))
      (dispatch-Completes (byte_at tx 0) (suc len) tx f rx' v sent room)
