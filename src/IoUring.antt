-- ===== src/IoUring.antt =====
-- content/exercises/c2/06-io-uring-read/starter.cpp: setting up the rings and giving them back. What the
-- kernel answers to the system calls is the parameter `Answers`; a NULL pointer and MAP_FAILED are `none`.
pub mod Restores
pub mod Mappings
pub mod Tests
use cppcourse.Base.{
  ℕ, ◌+◌, ◌*◌, ◌==◌, Bool, true, false, ◌&&◌, ◌||◌, not, List, [], ◌∷◌, Option, none, some,
  if◌then◌else◌,
}
use cppcourse.Base.Checked.{◌>>=◌}
use cppcourse.Base.Int.{ℤ, pos, negsuc, ltb_ℤ, eqb_ℤ}

-- `io_sqring_offsets` and `io_cqring_offsets`, as far as they are read.
pub record SqOffsets : Type 0 where
  pub tail : ℕ
  pub ring_mask : ℕ
  pub array : ℕ

pub record CqOffsets : Type 0 where
  pub head : ℕ
  pub tail : ℕ
  pub ring_mask : ℕ
  pub cqes : ℕ

pub record Params : Type 0 where
  pub sq_entries : ℕ
  pub cq_entries : ℕ
  pub sq_off : SqOffsets
  pub cq_off : CqOffsets

abbrev pub no_params : Params
no_params = record {
  sq_entries = 0;
  cq_entries = 0;
  sq_off = record { tail = 0; ring_mask = 0; array = 0 };
  cq_off = record { head = 0; tail = 0; ring_mask = 0; cqes = 0 };
}

-- The offsets at which the rings are mapped.
pub data Offset : Type 0 where
  sq_ring : Offset
  cq_ring : Offset
  sqes_area : Offset

-- What the kernel answers: to `io_uring_setup` a descriptor or -1, and the parameters as it leaves them; to
-- `mmap` of so many bytes of that descriptor an address or MAP_FAILED.
pub record Answers : Type 0 where
  pub setup : ℕ → ℤ × Params
  pub mmap : ℤ → Offset → ℕ → Option ℕ

-- The descriptors and the mappings, with their sizes, that the process has from these calls.
pub record Process : Type 0 where
  pub fds : List ℤ
  pub maps : List (ℕ × ℕ)

-- `sizeof(unsigned)`, `sizeof(io_uring_cqe)`, `sizeof(io_uring_sqe)`
abbrev pub word_size : ℕ
word_size = 4

abbrev pub cqe_size : ℕ
cqe_size = 16

abbrev pub sqe_size : ℕ
sqe_size = 64

pub record Ring : Type 0 where
  pub ring_fd : ℤ
  pub params : Params
  pub sq : Option ℕ
  pub cq : Option ℕ
  pub sqes : Option ℕ
  pub sq_sz : ℕ
  pub cq_sz : ℕ
  pub sqe_sz : ℕ
  pub sq_tail : Option ℕ
  pub sq_mask : Option ℕ
  pub sq_array : Option ℕ
  pub cq_head : Option ℕ
  pub cq_tail : Option ℕ
  pub cq_mask : Option ℕ
  pub cqes : Option ℕ

-- `Ring r;`
unfoldable pub new_ring : Ring
new_ring = record {
  ring_fd = negsuc 0;
  params = no_params;
  sq = none;
  cq = none;
  sqes = none;
  sq_sz = 0;
  cq_sz = 0;
  sqe_sz = 0;
  sq_tail = none;
  sq_mask = none;
  sq_array = none;
  cq_head = none;
  cq_tail = none;
  cq_mask = none;
  cqes = none;
}

-- The process after `mmap` has answered.
abbrev pub with_map : Option ℕ → ℕ → Process → Process
with_map none n p = p
with_map (some a) n p = record p { maps = (a, n) ∷ p.maps }

abbrev pub is_mapped : Option ℕ → Bool
is_mapped none = false
is_mapped (some a) = true

-- `a + offset` for a mapping at `a`
abbrev pub field_at : Option ℕ → ℕ → Option ℕ
field_at none o = none
field_at (some a) o = some (a + o)

-- The three mappings: all are asked for, also when one fails.
unfoldable pub map_rings : Answers → Ring → Process → Ring × Process
map_rings os r p =
    let sq_sz = r.params.sq_off.array + r.params.sq_entries * word_size in
    let cq_sz = r.params.cq_off.cqes + r.params.cq_entries * cqe_size in
    let sqe_sz = r.params.sq_entries * sqe_size in
    let sq = os.mmap r.ring_fd sq_ring sq_sz in
    let cq = os.mmap r.ring_fd cq_ring cq_sz in
    let sqes = os.mmap r.ring_fd sqes_area sqe_sz in
    (
      record r { sq = sq; cq = cq; sqes = sqes; sq_sz = sq_sz; cq_sz = cq_sz; sqe_sz = sqe_sz },
      with_map sqes sqe_sz (with_map cq cq_sz (with_map sq sq_sz p)),
    )

-- The pointers to the fields of the rings.
unfoldable pub set_fields : Ring → Ring
set_fields r = record r {
  sq_tail = field_at r.sq r.params.sq_off.tail;
  sq_mask = field_at r.sq r.params.sq_off.ring_mask;
  sq_array = field_at r.sq r.params.sq_off.array;
  cq_head = field_at r.cq r.params.cq_off.head;
  cq_tail = field_at r.cq r.params.cq_off.tail;
  cq_mask = field_at r.cq r.params.cq_off.ring_mask;
  cqes = field_at r.cq r.params.cq_off.cqes;
}

-- The end of `Ring::init`: the result, and the pointers where nothing has failed.
unfoldable pub finish : Ring → Process → Ring × Process × ℤ
finish r p =
    if not (is_mapped r.sq) || (not (is_mapped r.cq) || not (is_mapped r.sqes))
    then (r, p, negsuc 0)
    else (set_fields r, p, pos 0)

-- `Ring::init`, with its result.
unfoldable pub init : Answers → ℕ → Ring → Process → Ring × Process × ℤ
init os entries r p =
    let (fd, params) = os.setup entries in
    let r' = record r { ring_fd = fd; params = params } in
    let (mapped, p') = map_rings os r' (record p { fds = fd ∷ p.fds }) in
    if ltb_ℤ fd (pos 0) then (r', p, negsuc 0) else finish mapped p'

-- What is left after one mapping of a list is given back; `none` if it is not on the list.
unfoldable pub remove_map : ℕ → ℕ → List (ℕ × ℕ) → Option (List (ℕ × ℕ))
remove_map a n [] = none
remove_map a n ((b, m) ∷ maps) =
    let rest = remove_map a n maps in
    if a == b && n == m then some maps else rest >>= λ maps'. some ((b, m) ∷ maps')

unfoldable pub remove_fd : ℤ → List ℤ → Option (List ℤ)
remove_fd fd [] = none
remove_fd fd (g ∷ fds) =
    let rest = remove_fd fd fds in if eqb_ℤ fd g then some fds else rest >>= λ fds'. some (g ∷ fds')

-- `if (a != MAP_FAILED) munmap(a, n);`. To unmap what is not mapped is `none`.
unfoldable pub unmap : Option ℕ → ℕ → Process → Option Process
unmap none n p = some p
unmap (some a) n p = remove_map a n p.maps >>= λ maps. some (record p { maps = maps })

-- `if (fd >= 0) close(fd);`
unfoldable pub close_fd : ℤ → Process → Option Process
close_fd fd p =
    if ltb_ℤ fd (pos 0) then some p else remove_fd fd p.fds >>= λ fds. some (record p { fds = fds })

-- `~Ring()`
unfoldable pub destroy : Ring → Process → Option Process
destroy r p = unmap r.sq r.sq_sz p >>= λ p1.
    unmap r.cq r.cq_sz p1 >>= λ p2. unmap r.sqes r.sqe_sz p2 >>= λ p3. close_fd r.ring_fd p3

-- `uring_read` as it stands.
unfoldable pub uring_read : Ring → ℤ → ℕ → ℤ
uring_read r fd len = negsuc 0

-- `uring_read_once`: the process after it and the result.
unfoldable pub uring_read_once : Answers → ℤ → ℕ → Process → Option (Process × ℤ)
uring_read_once os fd len p =
    let (r, p', e) = init os 8 new_ring p in
    let result = if eqb_ℤ e (pos 0) then uring_read r fd len else negsuc 1 in
    destroy r p' >>= λ q. some (q, result)
