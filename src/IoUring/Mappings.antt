-- ===== src/IoUring/Mappings.antt =====
-- content/exercises/c2/06-io-uring-read/starter.cpp: the entries of the rings lie in their mappings.
use cppcourse.Base.{
  ℕ, ◌+◌, ◌*◌, ◌≤◌, ◌<◌, ◌≡◌, refl, arith, inl, inr, true, ◌||◌, not, List, [], ◌∷◌, ◌⊎◌, Option,
  none, some, Bool-cases, sym,
}
use cppcourse.Base.Int.{pos, negsuc, ltb_ℤ}
use cppcourse.IoUring.{
  sq_ring, cq_ring, sqes_area, Answers, Process, Ring, word_size, cqe_size, sqe_size, new_ring,
  is_mapped, map_rings, set_fields, with_map, finish, init, field_at,
}
use mathlib.Core.Path.{subst}

-- These bytes from the address on are one of the mappings.
abbrev Mapped : ℕ → ℕ → List (ℕ × ℕ) → Type 0
Mapped a n [] = ⊥
Mapped a n ((b, m) ∷ maps) = ((a ≡ b) × (n ≡ m)) ⊎ Mapped a n maps

-- An element of so many bytes at an offset behind a field lies in the mapping that the process has at `base`.
abbrev pub InMapping : Process → Option ℕ → Option ℕ → ℕ → ℕ → Type 0
InMapping p base field offset bytes =
    (a : ℕ) × (size : ℕ) × (x : ℕ) × (base ≡ some a)
    × Mapped a size p.maps
    × (field ≡ some x)
    × (a ≤ x + offset)
    × (x + offset + bytes ≤ a + size)

entry_le : (i n bytes : ℕ) → i < n → i * bytes + bytes ≤ n * bytes
entry_le i n bytes h = grind arith

-- The answer of `mmap`, if it is an address, is that of a mapping of this size.
abbrev AtBase : Process → Option ℕ → ℕ → Type 0
AtBase p base size = (a : ℕ) → base ≡ some a → Mapped a size p.maps

with_map-AtBase : (base : Option ℕ) (n : ℕ) (p : Process) → AtBase (with_map base n p) base n
with_map-AtBase none n p a e = cc
with_map-AtBase (some b) n p a e = let same : a ≡ b = cc in inl (same, refl)

with_map-keeps :
    (base other : Option ℕ) (n m : ℕ) (p : Process)
    → AtBase p base n
    → AtBase (with_map other m p) base n
with_map-keeps base none n m p h a e = h a e
with_map-keeps base (some b) n m p h a e = inr (h a e)

in_mapping :
    (p : Process) (base : Option ℕ) (off n i bytes size : ℕ)
    → is_mapped base ≡ true
    → AtBase p base size
    → i < n
    → size ≡ off + n * bytes
    → InMapping p base (field_at base off) (i * bytes) bytes
in_mapping p none off n i bytes size m at h e = cc
in_mapping p (some a) off n i bytes size m at h e =
    (a, size, a + off, refl, at a refl, refl, omega arith, omega (arith, entry_le i n bytes h))

in_area :
    (p : Process) (base : Option ℕ) (n i bytes size : ℕ)
    → is_mapped base ≡ true
    → AtBase p base size
    → i < n
    → size ≡ n * bytes
    → InMapping p base base (i * bytes) bytes
in_area p none n i bytes size m at h e = cc
in_area p (some a) n i bytes size m at h e =
    (a, size, a, refl, at a refl, refl, omega arith, omega (arith, entry_le i n bytes h))

-- The entries numbered `i` of the submission side and `j` of the completion side.
abbrev pub EntriesFit : Ring → Process → ℕ → ℕ → Type 0
EntriesFit r p i j =
    InMapping p r.sq r.sq_array (i * word_size) word_size
    × InMapping p r.cq r.cqes (j * cqe_size) cqe_size
    × InMapping p r.sqes r.sqes (i * sqe_size) sqe_size

-- The mappings of the process are those that the ring has, in the sizes that its parameters ask for.
abbrev IsMapped : Ring → Process → Type 0
IsMapped r p =
    AtBase p r.sq (r.params.sq_off.array + r.params.sq_entries * word_size)
    × AtBase p r.cq (r.params.cq_off.cqes + r.params.cq_entries * cqe_size)
    × AtBase p r.sqes (r.params.sq_entries * sqe_size)

map_rings-IsMapped :
    (os : Answers) (r : Ring) (p : Process) → IsMapped (map_rings os r p).0 (map_rings os r p).1
unfolding map_rings
map_rings-IsMapped os r p =
    let sq_sz = r.params.sq_off.array + r.params.sq_entries * word_size in
    let cq_sz = r.params.cq_off.cqes + r.params.cq_entries * cqe_size in
    let sqe_sz = r.params.sq_entries * sqe_size in
    let sq = os.mmap r.ring_fd sq_ring sq_sz in
    let cq = os.mmap r.ring_fd cq_ring cq_sz in
    let sqes = os.mmap r.ring_fd sqes_area sqe_sz in
    let one = with_map sq sq_sz p in
    let two = with_map cq cq_sz one in
    (
      with_map-keeps sq sqes sq_sz sqe_sz two
          (with_map-keeps sq cq sq_sz cq_sz one (with_map-AtBase sq sq_sz p)),
      with_map-keeps cq sqes cq_sz sqe_sz two (with_map-AtBase cq cq_sz one),
      with_map-AtBase sqes sqe_sz two,
    )

finish-EntriesFit :
    (r : Ring) (p : Process) (i j : ℕ)
    → IsMapped r p
    → (finish r p).2 ≡ pos 0
    → i < (finish r p).0.params.sq_entries
    → j < (finish r p).0.params.cq_entries
    → EntriesFit (finish r p).0 (finish r p).1 i j
unfolding finish set_fields
finish-EntriesFit r p i j (a, b, c) h hi hj =
    elim (Bool-cases (not (is_mapped r.sq) || (not (is_mapped r.cq) || not (is_mapped r.sqes)))) [
      | inl e ↦ absurd (ground arith)
      | inr e ↦ rw e (
        in_mapping p r.sq _ r.params.sq_entries i word_size _ (ground arith) a (ground arith) refl,
        in_mapping p r.cq _ r.params.cq_entries j cqe_size _ (ground arith) b (ground arith) refl,
        in_area p r.sqes r.params.sq_entries i sqe_size _ (ground arith) c (ground arith) refl,
      )
    ]

-- The ring and the process once the kernel has opened the descriptor.
abbrev opened : Answers → ℕ → Ring
opened os entries = record new_ring {
  ring_fd = (os.setup entries).0;
  params = (os.setup entries).1;
}

abbrev holding : Answers → ℕ → Process → Process
holding os entries p = record p { fds = (os.setup entries).0 ∷ p.fds }

-- When init has returned 0, each index that the kernel counts has its word in the array of the submission
-- ring, its entry in the completion ring and its entry in the submission area within the mappings that the
-- process then has.
pub init-EntriesFit :
    (os : Answers) (entries : ℕ) (p : Process) (i j : ℕ)
    → (init os entries new_ring p).2 ≡ pos 0
    → i < (init os entries new_ring p).0.params.sq_entries
    → j < (init os entries new_ring p).0.params.cq_entries
    → EntriesFit (init os entries new_ring p).0 (init os entries new_ring p).1 i j
unfolding init
init-EntriesFit os entries p i j h hi hj = elim (Bool-cases (ltb_ℤ (os.setup entries).0 (pos 0))) [
  | inl e ↦ absurd (let h' : negsuc 0 ≡ pos 0 = rw e at h in cc)
  | inr e ↦
      let q : init os entries new_ring p
          ≡ finish (map_rings os (opened os entries) (holding os entries p)).0
              (map_rings os (opened os entries) (holding os entries p)).1 =
        rw e refl in
      subst
        (λ t.
          t.2 ≡ pos 0
          → i < t.0.params.sq_entries
          → j < t.0.params.cq_entries
          → EntriesFit t.0 t.1 i j)
        (sym q)
        (finish-EntriesFit _ _ i j
          (map_rings-IsMapped os (opened os entries) (holding os entries p)))
        h hi hj
]
