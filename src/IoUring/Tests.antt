-- ===== src/IoUring/Tests.antt =====
-- Runs of content/exercises/c2/06-io-uring-read/starter.cpp.
use cppcourse.Base.{◌≡◌, refl, arith, [], ◌∷◌, none, some}
use cppcourse.Base.Int.{pos, negsuc}
use cppcourse.IoUring.{
  Answers, sq_ring, cq_ring, sqes_area, Params, Process, new_ring, map_rings, finish, set_fields,
  init, uring_read_once,
}
use cppcourse.IoUring.Restores.{uring_read_once_restores}
use cppcourse.IoUring.Mappings.{EntriesFit, init-EntriesFit}

abbrev eight : Params
eight = record {
  sq_entries = 8;
  cq_entries = 16;
  sq_off = record { tail = 4; ring_mask = 16; array = 0x180 };
  cq_off = record { head = 8; tail = 12; ring_mask = 20; cqes = 64 };
}

abbrev granting : Answers
granting = record {
  setup = λ n. (pos 5, eight);
  mmap = λ fd o n. elim o [
    | sq_ring ↦ some 0x10000
    | cq_ring ↦ some 0x20000
    | sqes_area ↦ some 0x30000
  ];
}

-- The second mapping fails.
abbrev half_granting : Answers
half_granting = record {
  setup = λ n. (pos 5, eight);
  mmap = λ fd o n. elim o [ sq_ring ↦ some 0x10000 | cq_ring ↦ none | sqes_area ↦ some 0x30000 ];
}

abbrev before : Process
before = record { fds = pos 0 ∷ pos 1 ∷ []; maps = [] }

uring_read_once_granted : uring_read_once granting (pos 0) 4 before ≡ some (before, negsuc 0)
uring_read_once_granted = uring_read_once_restores granting (pos 0) 4 before

uring_read_once_example : uring_read_once half_granting (pos 0) 4 before ≡ some (before, negsuc 1)
uring_read_once_example = uring_read_once_restores half_granting (pos 0) 4 before

init_maps :
    (init granting 8 new_ring before).1.maps ≡ (0x30000, 512) ∷ (0x20000, 320) ∷ (0x10000, 416) ∷ []
unfolding init map_rings finish set_fields new_ring
init_maps = refl

init_example :
    EntriesFit (init granting 8 new_ring before).0 (init granting 8 new_ring before).1 7 15
unfolding init map_rings finish set_fields new_ring
init_example = init-EntriesFit granting 8 before 7 15 refl (omega arith) (omega arith)
