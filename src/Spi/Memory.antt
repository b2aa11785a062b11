-- ===== src/Spi/Memory.antt =====
-- The loops of CMD_PAGE_PROG and CMD_READ, described byte by byte.
use cppcourse.Base.{ℕ, zero, suc, ◌+◌, ◌≤◌, ◌<◌, bit_and, ◌≡◌, ◌≢◌, refl, sym, ap, ◌∙◌}
use cppcourse.Base.{arith, List, some, ◌⊎◌, length, get_or, set, ℕ_discrete}
use cppcourse.Base.{length-set, get_elem?-eq-get_or, get_or-set_self, get_or-set_ne}
use cppcourse.Base.Bits.{bit_and_absorb, bit_and_self, SubMask, SubMask-trans}
use cppcourse.Spi.{slot, prog_loop, read_loop}

abbrev pub byte_at : List ℕ → ℕ → ℕ
byte_at xs i = get_or xs i 0

slot_distinct : (addr i j : ℕ) → 2 ≤ i → i < j → j < 258 → slot addr i ≢ slot addr j
slot_distinct addr i j a b c = omega arith

-- What the programming loop over `tx[lo..hi)` has done.
pub record Programmed (addr lo hi : ℕ) (tx mem : List ℕ) (out : List ℕ) : Type 0 where
  pub same_length : length out ≡ length mem
  pub written :
      (j : ℕ)
      → lo ≤ j
      → j < hi
      → byte_at out (slot addr j) ≡ bit_and (byte_at mem (slot addr j)) (byte_at tx j)
  pub outside :
      (p : ℕ) → ((j : ℕ) → lo ≤ j → j < hi → p ≢ slot addr j) → byte_at out p ≡ byte_at mem p

module _ (addr : ℕ) (tx : List ℕ) where
  abbrev put : ℕ → List ℕ → List ℕ
  put i mem = set mem (slot addr i) (bit_and (byte_at mem (slot addr i)) (byte_at tx i))

  prog_loop-suc :
      (left i : ℕ) (mem : List ℕ)
      → length mem ≡ 256
      → i < length tx
      → prog_loop (suc left) i addr tx mem ≡ prog_loop left (i + 1) addr tx (put i mem)
  unfolding prog_loop
  prog_loop-suc left i mem size h =
      ground (arith, get_elem?-eq-get_or mem (slot addr i) 0, get_elem?-eq-get_or tx i 0)

  Programmed-put :
      {i hi : ℕ} (mem out : List ℕ)
      → length mem ≡ 256
      → 2 ≤ i
      → i < hi
      → hi ≤ 258
      → Programmed addr (i + 1) hi tx (put i mem) out
      → Programmed addr i hi tx mem out
  Programmed-put {i} {hi} mem out size lo below fits rest = record {
    same_length = rest.same_length ∙ length-set mem (slot addr i) _;
    written = λ j p q. elim (ℕ_discrete j i) [
      | yes e ↦ rw e (
          (rest.outside (slot addr i)
              (λ k a b. slot_distinct addr i k lo (omega arith) (omega arith))
            ∙ get_or-set_self mem (slot addr i) _ 0 (omega arith)))
      | no ne ↦
          rest.written j (omega arith) q
          ∙ ap (λ (t : ℕ). bit_and t (byte_at tx j))
              (get_or-set_ne mem (slot addr i) (slot addr j) _ 0
                (slot_distinct addr i j lo (omega arith) (omega arith)))
    ];
    outside = λ p far.
        rest.outside p (λ j a b. far j (omega arith) b)
        ∙ get_or-set_ne mem (slot addr i) p _ 0 (λ e. far i (omega arith) below (sym e));
  }

  pub prog_loop-Programmed :
      (left i hi : ℕ) (mem : List ℕ)
      → i + left ≡ hi
      → 2 ≤ i
      → hi ≤ 258
      → hi ≤ length tx
      → length mem ≡ 256
      → (out : List ℕ) × (prog_loop left i addr tx mem ≡ some out) × Programmed addr i hi tx mem out
  prog_loop-Programmed zero i hi mem e lo fits h size = (
    mem,
    unfold prog_loop in refl,
    record { same_length = refl; written = λ j p q. absurd (omega arith); outside = λ p far. refl },
  )
  prog_loop-Programmed (suc left) i hi mem e lo fits h size =
      let (out, returns, done) =
        prog_loop-Programmed left (i + 1) hi (put i mem) (omega arith) (omega arith) fits h
          (length-set mem (slot addr i) _ ∙ size) in
      (
        out,
        prog_loop-suc left i mem size (omega arith) ∙ returns,
        Programmed-put mem out size lo (omega arith) fits done,
      )

-- What the reading loop has stored in `rx[lo..hi)`.
pub record ReadBack (addr lo hi : ℕ) (mem rx : List ℕ) (out : List ℕ) : Type 0 where
  pub same_length : length out ≡ length rx
  pub inside : (j : ℕ) → lo ≤ j → j < hi → byte_at out j ≡ byte_at mem (slot addr j)
  pub outside : (j : ℕ) → (j < lo) ⊎ (hi ≤ j) → byte_at out j ≡ byte_at rx j

-- What programming leaves of a memory, for a transfer of any length.
pub record Cleared (mem out : List ℕ) : Type 0 where
  pub same_length : length out ≡ length mem
  pub sub_mask : (p : ℕ) → SubMask (byte_at out p) (byte_at mem p)

module _ (addr : ℕ) (mem : List ℕ) (size : length mem ≡ 256) where
  abbrev fetch : ℕ → List ℕ → List ℕ
  fetch i rx = set rx i (byte_at mem (slot addr i))

  read_loop-suc :
      (left i : ℕ) (rx : List ℕ)
      → i < length rx
      → read_loop (suc left) i addr mem rx ≡ read_loop left (i + 1) addr mem (fetch i rx)
  unfolding read_loop
  read_loop-suc left i rx h = ground (arith, get_elem?-eq-get_or mem (slot addr i) 0)

  pub read_loop-ReadBack :
      (left i hi : ℕ) (rx : List ℕ)
      → i + left ≡ hi
      → hi ≤ length rx
      → (out : List ℕ) × (read_loop left i addr mem rx ≡ some out) × ReadBack addr i hi mem rx out
  read_loop-ReadBack zero i hi rx e h = (
    rx,
    unfold read_loop in refl,
    record { same_length = refl; inside = λ j p q. absurd (omega arith); outside = λ j p. refl },
  )
  read_loop-ReadBack (suc left) i hi rx e h =
      let (out, returns, rest) =
        read_loop-ReadBack left (i + 1) hi (fetch i rx) (omega arith) (rw length-set h) in
      (
        out,
        read_loop-suc left i rx (omega arith) ∙ returns,
        record {
          same_length = rest.same_length ∙ length-set rx i _;
          inside = λ j p q. ground (
            arith,
            rest.inside j,
            rest.outside j,
            get_or-set_self rx i (byte_at mem (slot addr i)) 0,
          );
          outside = λ j p.
              ground (arith, rest.outside j, get_or-set_ne rx i j (byte_at mem (slot addr i)) 0);
        },
      )

module _ (addr : ℕ) (tx : List ℕ) where
  put-SubMask :
      (i p : ℕ) (mem : List ℕ)
      → slot addr i < length mem
      → SubMask (byte_at (put addr tx i mem) p) (byte_at mem p)
  put-SubMask i p mem h = elim (ℕ_discrete p (slot addr i)) [
    | yes e ↦
        rw
          (
            e,
            get_or-set_self mem (slot addr i) (bit_and (byte_at mem (slot addr i)) (byte_at tx i)) 0
                h,
          )
          (bit_and_absorb (byte_at mem (slot addr i)) (byte_at tx i))
    | no ne ↦
        rw
          (get_or-set_ne mem (slot addr i) p (bit_and (byte_at mem (slot addr i)) (byte_at tx i)) 0
            (λ e. ne (sym e)))
          (bit_and_self (byte_at mem p))
  ]

  pub prog_loop-Cleared :
      (left i : ℕ) (mem : List ℕ)
      → i + left ≤ length tx
      → length mem ≡ 256
      → (out : List ℕ) × (prog_loop left i addr tx mem ≡ some out) × Cleared mem out
  prog_loop-Cleared zero i mem h size =
      (mem, unfold prog_loop in refl, record { same_length = refl; sub_mask = λ p. bit_and_self _ })
  prog_loop-Cleared (suc left) i mem h size =
      let (out, returns, rest) =
        prog_loop-Cleared left (i + 1) (put addr tx i mem) (omega arith)
          (length-set mem (slot addr i) _ ∙ size) in
      (
        out,
        prog_loop-suc addr tx left i mem size (omega arith) ∙ returns,
        record {
          same_length = rest.same_length ∙ length-set mem (slot addr i) _;
          sub_mask = λ p.
              SubMask-trans (byte_at out p) (byte_at (put addr tx i mem) p) (byte_at mem p)
                (rest.sub_mask p) (put-SubMask i p mem (omega arith));
        },
      )
