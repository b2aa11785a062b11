-- ===== src/Spi/Session.antt =====
-- Sequences of transfers, and what write protection means for them.
use cppcourse.Base.{ℕ, ◌≡◌, ◌≢◌, refl, arith, inl, inr, ◌≤◌, ◌-◌}
use cppcourse.Base.{List, [], ◌∷◌, Option, some, none, length, get_or}
use cppcourse.Base.{get_elem?-eq-get_or, Bool-cases, leb, Option-cases}
use cppcourse.Base.Bits.{SubMask, SubMask-trans, bit_and_self}
use cppcourse.Base.Checked.{◌>>=◌}
use cppcourse.Spi.{
  Flash, Rx, cmd_write_en, cmd_chip_erase, jedec_id, read_status, write_en, read, page_prog,
  chip_erase, dispatch, fill_rx, sim_spi_transfer,
}
use cppcourse.Spi.Memory.{byte_at, prog_loop-Cleared}
use cppcourse.Spi.Transfer.{IsValid, RxFits, sim_spi_transfer-Completes}

-- One call of `sim_spi_transfer` by the driver.
pub record Request : Type 0 where
  pub tx : Option (List ℕ)
  pub rx : Rx
  pub len : ℕ

abbrev pub Fits : Request → Type 0
Fits q = RxFits q.tx q.len × RxFits q.rx q.len

unfoldable pub step : Request → Flash → Option Flash
step q f = do (g, _) ← sim_spi_transfer q.tx q.rx q.len f; some g

-- The device after a sequence of calls.
unfoldable pub session : List Request → Flash → Option Flash
session [] f = some f
session (q ∷ qs) f = do g ← step q f; session qs g

abbrev pub AllFit : List Request → Type 0
AllFit [] = Unit {0}
AllFit (q ∷ qs) = Fits q × AllFit qs

-- The command byte of a request, 0xFF where nothing is sent.
abbrev pub command : Request → ℕ
command q = elim q.tx [ none ↦ 0xff | some tx ↦ get_or tx 0 0xff ]

abbrev pub NoWriteEnable : List Request → Type 0
NoWriteEnable [] = Unit {0}
NoWriteEnable (q ∷ qs) = (command q ≢ cmd_write_en) × NoWriteEnable qs

step-IsValid :
    (q : Request) (f : Flash) → IsValid f → Fits q → (g : Flash) × (step q f ≡ some g) × IsValid g
unfolding step
step-IsValid q f v fit =
    let c = sim_spi_transfer-Completes q.tx q.rx q.len f v fit.0 fit.1 in
    (c.after, rw c.returns, c.valid)

-- Every sequence of transfers whose buffers fit completes on a valid device and leaves it valid.
pub session-IsValid :
    (qs : List Request) (f : Flash)
    → IsValid f
    → AllFit qs
    → (g : Flash) × (session qs f ≡ some g) × IsValid g
unfolding session
session-IsValid [] f v fit = (f, refl, v)
session-IsValid (q ∷ qs) f v fit =
    let (g, stepped, v') = step-IsValid q f v fit.0 in
    let (h, ended, v'') = session-IsValid qs g v' fit.1 in (h, rw stepped ended, v'')

-- With WEL clear, a command other than WRITE_EN leaves the whole device as it was.
dispatch-locked :
    (cmd len : ℕ) (tx : List ℕ) (rx : Rx) (f g : Flash) (out : Rx)
    → f.status ≡ 0
    → cmd ≢ cmd_write_en
    → dispatch cmd tx rx len f ≡ some (g, out)
    → g ≡ f
unfolding dispatch jedec_id read_status write_en read page_prog chip_erase
dispatch-locked cmd len tx none f g out e ne h = ground arith
dispatch-locked cmd len tx (some rx) f g out e ne h = ground arith

transfer-locked :
    (tx : Option (List ℕ)) (rx : Rx) (len : ℕ) (f g : Flash) (out : Rx)
    → f.status ≡ 0
    → (elim tx [ none ↦ 0xff | some bytes ↦ get_or bytes 0 0xff ]) ≢ cmd_write_en
    → sim_spi_transfer tx rx len f ≡ some (g, out)
    → g ≡ f
unfolding sim_spi_transfer
transfer-locked none rx len f g out e ne h = ground arith
transfer-locked (some []) rx len f g out e ne h = elim (Option-cases (fill_rx rx len)) [
  | inl bad ↦ ground arith
  | inr (buf, good) ↦ ground arith
]
transfer-locked (some (cmd ∷ tx)) rx len f g out e ne h = elim (Option-cases (fill_rx rx len)) [
  | inl bad ↦ ground arith
  | inr (buf, good) ↦ ground (arith, dispatch-locked cmd len (cmd ∷ tx) buf f g out e ne)
]

-- A sequence of transfers without WRITE_EN whose buffers fit leaves a valid device with WEL clear
-- exactly as it was: memory and status.
pub session-locked :
    (qs : List Request) (f : Flash)
    → IsValid f
    → f.status ≡ 0
    → AllFit qs
    → NoWriteEnable qs
    → session qs f ≡ some f
unfolding session step
session-locked [] f v e fit quiet = refl
session-locked (q ∷ qs) f v e fit quiet =
    let c = sim_spi_transfer-Completes q.tx q.rx q.len f v fit.0.0 fit.0.1 in
    let same : c.after ≡ f =
      transfer-locked q.tx q.rx q.len f c.after c.received e quiet.0 c.returns in
    rw (c.returns, same) (session-locked qs f v e fit.1 quiet.1)

page_prog-SubMask :
    (tx : List ℕ) (rx : Rx) (len p : ℕ) (f g : Flash) (out : Rx)
    → IsValid f
    → len ≤ length tx
    → page_prog tx rx len f ≡ some (g, out)
    → SubMask (byte_at g.mem p) (byte_at f.mem p)
unfolding page_prog
page_prog-SubMask tx rx len p f g out v sent h = elim v.state [
  | inl e ↦ ground (arith, bit_and_self (byte_at f.mem p))
  | inr e ↦ elim (Bool-cases (leb 2 len)) [
    | inr short ↦ ground (arith, bit_and_self (byte_at f.mem p))
    | inl long ↦
        let addr = byte_at tx 1 in
        let (mem', returns, done) =
          prog_loop-Cleared addr tx (len - 2) 2 f.mem (ground arith) v.size in
        ground (arith, get_elem?-eq-get_or tx 1 0, done.sub_mask p)
  ]
]

dispatch-SubMask :
    (cmd len p : ℕ) (tx : List ℕ) (rx : Rx) (f g : Flash) (out : Rx)
    → IsValid f
    → len ≤ length tx
    → cmd ≢ cmd_chip_erase
    → dispatch cmd tx rx len f ≡ some (g, out)
    → SubMask (byte_at g.mem p) (byte_at f.mem p)
unfolding dispatch jedec_id read_status write_en read
dispatch-SubMask cmd len p tx none f g out v sent ne h =
    ground (arith, bit_and_self (byte_at f.mem p), page_prog-SubMask tx none len p f g out v sent)
dispatch-SubMask cmd len p tx (some rx) f g out v sent ne h =
    ground
      (arith, bit_and_self (byte_at f.mem p), page_prog-SubMask tx (some rx) len p f g out v sent)

transfer-SubMask :
    (tx : Option (List ℕ)) (rx : Rx) (len p : ℕ) (f g : Flash) (out : Rx)
    → IsValid f
    → RxFits tx len
    → (elim tx [ none ↦ 0xff | some bytes ↦ get_or bytes 0 0xff ]) ≢ cmd_chip_erase
    → sim_spi_transfer tx rx len f ≡ some (g, out)
    → SubMask (byte_at g.mem p) (byte_at f.mem p)
unfolding sim_spi_transfer
transfer-SubMask none rx len p f g out v sent ne h = ground (arith, bit_and_self (byte_at f.mem p))
transfer-SubMask (some []) rx len p f g out v sent ne h = elim (Option-cases (fill_rx rx len)) [
  | inl bad ↦ ground (arith, bit_and_self (byte_at f.mem p))
  | inr (buf, good) ↦ ground (arith, bit_and_self (byte_at f.mem p))
]
transfer-SubMask (some (cmd ∷ tx)) rx len p f g out v sent ne h =
    elim (Option-cases (fill_rx rx len)) [
      | inl bad ↦ ground (arith, bit_and_self (byte_at f.mem p))
      | inr (buf, good) ↦ ground (
        arith,
        bit_and_self (byte_at f.mem p),
        dispatch-SubMask cmd len p (cmd ∷ tx) buf f g out v sent ne,
      )
    ]

abbrev pub NoErase : List Request → Type 0
NoErase [] = Unit {0}
NoErase (q ∷ qs) = (command q ≢ cmd_chip_erase) × NoErase qs

-- A sequence of transfers without CHIP_ERASE whose buffers fit completes on a valid device, and only
-- clears bits: every bit set in a byte of the memory after it was set in that byte before it.
pub session-SubMask :
    (qs : List Request) (f : Flash)
    → IsValid f
    → AllFit qs
    → NoErase qs
    → (g : Flash) × (session qs f ≡ some g)
      × IsValid g
      × ((p : ℕ) → SubMask (byte_at g.mem p) (byte_at f.mem p))
unfolding session step
session-SubMask [] f v fit calm = (f, refl, v, λ p. bit_and_self (byte_at f.mem p))
session-SubMask (q ∷ qs) f v fit calm =
    let c = sim_spi_transfer-Completes q.tx q.rx q.len f v fit.0.0 fit.0.1 in
    let (g, ended, v', rest) = session-SubMask qs c.after c.valid fit.1 calm.1 in
    (
      g,
      rw c.returns ended,
      v',
      λ p.
          SubMask-trans (byte_at g.mem p) (byte_at c.after.mem p) (byte_at f.mem p) (rest p)
            (transfer-SubMask q.tx q.rx q.len p f c.after c.received v fit.0.0 calm.0 c.returns),
    )
