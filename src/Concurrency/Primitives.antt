-- ===== src/Concurrency/Primitives.antt =====
-- content/exercises/c1: the queue of 01-spsc-queue, the locks of 02-ttas-spinlock and 06-mcs-lock and the
-- seqlock of 03-seqlock, as they stand. A pointer is an address, and NULL is `none`.
use cppcourse.Base.{ℕ, Bool, false, List, Option, none, replicate, if◌then◌else◌}
use cppcourse.Base.Int.{ℤ, pos}

abbrev pub cap : ℕ
cap = 64

pub record SpscQueue : Type 0 where
  pub buf : List ℤ
  pub head : ℕ
  pub tail : ℕ

unfoldable pub spsc_create : SpscQueue
spsc_create = record { buf = replicate cap (pos 0); head = 0; tail = 0 }

unfoldable pub push : ℤ → SpscQueue → SpscQueue × Bool
push v q = (q, false)

-- With what `out` holds afterwards.
unfoldable pub pop : ℤ → SpscQueue → SpscQueue × ℤ × Bool
pop out q = (q, out, false)

unfoldable pub spsc_push : SpscQueue → ℤ → SpscQueue × ℕ
spsc_push q v = let (q', done) = push v q in (q', if done then 1 else 0)

unfoldable pub spsc_pop : SpscQueue → ℤ → SpscQueue × ℤ × ℕ
spsc_pop q o = let (q', o', found) = pop o q in (q', o', if found then 1 else 0)

pub record Spinlock : Type 0 where
  pub locked : Bool

unfoldable pub spin_create : Spinlock
spin_create = record { locked = false }

unfoldable pub lock : Spinlock → Spinlock
lock s = s

unfoldable pub unlock : Spinlock → Spinlock
unlock s = s

unfoldable pub spin_lock : Spinlock → Spinlock
spin_lock s = lock s

unfoldable pub spin_unlock : Spinlock → Spinlock
spin_unlock s = unlock s

pub record Seqlock : Type 0 where
  pub seq : ℕ
  pub x : ℤ
  pub y : ℤ

unfoldable pub seq_create : Seqlock
seq_create = record { seq = 0; x = pos 0; y = pos 0 }

unfoldable pub write : ℤ → Seqlock → Seqlock
write v s = s

-- What `a` and `b` hold afterwards.
unfoldable pub read : Seqlock → ℤ × ℤ
read s = (pos 0, pos 0)

unfoldable pub seq_write : Seqlock → ℤ → Seqlock
seq_write s v = write v s

unfoldable pub seq_read : Seqlock → ℤ × ℤ
seq_read s = read s

pub record McsNode : Type 0 where
  pub next : Option ℕ
  pub locked : Bool

pub record McsLock : Type 0 where
  pub tail : Option ℕ

unfoldable pub mcs_create : McsLock
mcs_create = record { tail = none }

-- `g_mcs_node` of a thread that has used no lock.
unfoldable pub g_mcs_node : McsNode
g_mcs_node = record { next = none; locked = false }

-- The lock and the thread's node after it.
unfoldable pub mcs_acquire : McsNode → McsLock → McsLock × McsNode
mcs_acquire self m = (m, self)

unfoldable pub mcs_release : McsNode → McsLock → McsLock × McsNode
mcs_release self m = (m, self)

unfoldable pub mcs_lock : McsLock → McsNode → McsLock × McsNode
mcs_lock m self = mcs_acquire self m

unfoldable pub mcs_unlock : McsLock → McsNode → McsLock × McsNode
mcs_unlock m self = mcs_release self m
