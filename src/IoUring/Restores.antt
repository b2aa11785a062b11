-- ===== src/IoUring/Restores.antt =====
-- content/exercises/c2/06-io-uring-read/starter.cpp: on every path what was acquired is given back.
use cppcourse.Base.{
  ◌∙◌, ℕ, ◌+◌, ◌*◌, ◌≡◌, refl, arith, inl, inr, Bool, true, false, ◌&&◌, ◌||◌, not, ◌∷◌, Option,
  none, some, if◌then◌else◌, Bool-cases, Option-cases, ==_iff,
}
use cppcourse.Base.Checked.{◌>>=◌}
use cppcourse.Base.Int.{pos_part, neg_part, ℤ, pos, negsuc, ltb_ℤ, eqb_ℤ}
use cppcourse.IoUring.{
  Answers, Process, Ring, sq_ring, cq_ring, sqes_area, word_size, cqe_size, sqe_size, new_ring,
  with_map, is_mapped, map_rings, set_fields, finish, init, remove_map, remove_fd, unmap, close_fd,
  destroy, uring_read, uring_read_once,
}

-- The mappings come back in the order of the destructor, which is not the reverse of that of `init`.
unmap-with_map :
    (sq cq sqes : Option ℕ) (a b c : ℕ) (p : Process)
    → (unmap sq a (with_map sqes c (with_map cq b (with_map sq a p))) >>= λ p1.
        unmap cq b p1 >>= λ p2. unmap sqes c p2)
      ≡ some p
unfolding unmap remove_map
unmap-with_map none none none a b c p = refl
unmap-with_map none none (some z) a b c p = ground arith
unmap-with_map none (some y) none a b c p = ground arith
unmap-with_map none (some y) (some z) a b c p = ground arith
unmap-with_map (some x) none none a b c p = ground arith
unmap-with_map (some x) none (some z) a b c p = ground arith
unmap-with_map (some x) (some y) none a b c p = ground arith
unmap-with_map (some x) (some y) (some z) a b c p = ground arith

abbrev unmaps : Ring → Process → Option Process
unmaps r p = unmap r.sq r.sq_sz p >>= λ p1. unmap r.cq r.cq_sz p1 >>= λ p2. unmap r.sqes r.sqe_sz p2

destroy-unmaps : (r : Ring) (p : Process) → destroy r p ≡ (unmaps r p >>= close_fd r.ring_fd)
unfolding destroy
destroy-unmaps r p = elim (Option-cases (unmap r.sq r.sq_sz p)) [
  | inl e ↦ rw e refl
  | inr (p1, e) ↦ rw e (elim (Option-cases (unmap r.cq r.cq_sz p1)) [
    | inl e' ↦ rw e' refl
    | inr (p2, e') ↦ rw e' refl
  ])
]

close_open :
    (fd : ℤ) (p : Process)
    → ltb_ℤ fd (pos 0) ≡ false
    → close_fd fd (record p { fds = fd ∷ p.fds }) ≡ some p
unfolding close_fd remove_fd
close_open fd p h = ground (arith, ==_iff (pos_part fd + neg_part fd) (pos_part fd + neg_part fd))

-- What `map_rings` has mapped, and the descriptor, are given back.
destroy-map_rings :
    (os : Answers) (r : Ring) (p : Process)
    → ltb_ℤ r.ring_fd (pos 0) ≡ false
    → destroy
        (map_rings os r (record p { fds = r.ring_fd ∷ p.fds })).0
        (map_rings os r (record p { fds = r.ring_fd ∷ p.fds })).1
      ≡ some p
unfolding map_rings
destroy-map_rings os r p h =
    destroy-unmaps _ _
    ∙ rw (unmap-with_map _ _ _ _ _ _ (record p { fds = r.ring_fd ∷ p.fds }))
        (close_open r.ring_fd p h)

-- The kernel grants a descriptor and the three mappings.
abbrev pub is_granted : Answers → ℕ → Bool
is_granted os entries =
    let (fd, params) = os.setup entries in
    not (ltb_ℤ fd (pos 0))
    && (is_mapped (os.mmap fd sq_ring (params.sq_off.array + params.sq_entries * word_size))
        && (is_mapped (os.mmap fd cq_ring (params.cq_off.cqes + params.cq_entries * cqe_size))
            && is_mapped (os.mmap fd sqes_area (params.sq_entries * sqe_size))))

destroy-finish : (r : Ring) (p : Process) → destroy (finish r p).0 (finish r p).1 ≡ destroy r p
unfolding finish set_fields destroy
destroy-finish r p =
    elim (Bool-cases (not (is_mapped r.sq) || (not (is_mapped r.cq) || not (is_mapped r.sqes)))) [
      | inl e ↦ rw e refl
      | inr e ↦ rw e refl
    ]

finish-result :
    (r : Ring) (p : Process)
    → (finish r p).2
      ≡ (if is_mapped r.sq && (is_mapped r.cq && is_mapped r.sqes) then pos 0 else negsuc 0)
unfolding finish
finish-result r p = ground arith

destroy-init :
    (os : Answers) (entries : ℕ) (p : Process)
    → (destroy (init os entries new_ring p).0 (init os entries new_ring p).1 ≡ some p)
      × ((init os entries new_ring p).2 ≡ (if is_granted os entries then pos 0 else negsuc 0))
unfolding init
destroy-init os entries p = elim (Bool-cases (ltb_ℤ (os.setup entries).0 (pos 0))) [
  | inl e ↦ (rw e (unfold destroy unmap close_fd new_ring in rw e refl), rw e refl)
  | inr e ↦ (
    rw e (destroy-finish _ _ ∙ destroy-map_rings os _ p e),
    rw e (finish-result _ _ ∙ (unfold map_rings in refl)),
  )
]

-- Whatever the kernel answers, uring_read_once leaves the process with the descriptors and mappings that
-- it had, and gives back nothing that it does not hold; it returns -1 if the kernel grants the descriptor
-- and the three mappings, and -2 if it refuses one of them.
pub uring_read_once_restores :
    (os : Answers) (fd : ℤ) (len : ℕ) (p : Process)
    → uring_read_once os fd len p ≡ some (p, if is_granted os 8 then negsuc 0 else negsuc 1)
unfolding uring_read_once uring_read
uring_read_once_restores os fd len p =
    let (back, result) = destroy-init os 8 p in rw back (rw result (choose (is_granted os 8)))
  where
    choose :
        (b : Bool)
        → ◌≡◌ {A = Option (Process × ℤ)}
            (some (p, if eqb_ℤ (if b then pos 0 else negsuc 0) (pos 0) then negsuc 0 else negsuc 1))
            (some (p, if b then negsuc 0 else negsuc 1))
    choose true = refl
    choose false = refl
