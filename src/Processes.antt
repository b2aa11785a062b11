-- ===== src/Processes.antt =====
-- content/exercises/f3: processes, threads and ELF files, and content/exercises/c3: communication between
-- processes, as they stand: no lock is taken and no system call is made, but for `futex`, which nothing
-- calls. A buffer or an `out` parameter that a function could write is passed along, a string is its
-- bytes, and NULL and MAP_FAILED are `none`.
use cppcourse.Base.{ℕ, List, Option, none}
use cppcourse.Base.Int.{ℤ, pos, negsuc}

-- f3/01
unfoldable pub fork_and_collect : ℤ → List ℤ → List ℤ × ℤ
fork_and_collect n results = (results, negsuc 0)

unfoldable pub run_echo : List ℕ → ℤ
run_echo arg = negsuc 0

unfoldable pub check_signal_death : ℤ → ℤ
check_signal_death sig = negsuc 0

-- f3/02: `counter_t` without its mutex, which nothing touches.
pub record CounterT : Type 0 where
  pub value : ℤ

unfoldable pub counter_init : CounterT → CounterT × ℤ
counter_init c = (c, negsuc 0)

unfoldable pub counter_destroy : CounterT → CounterT × ℤ
counter_destroy c = (c, negsuc 0)

unfoldable pub counter_add : CounterT → ℤ → CounterT × ℤ
counter_add c delta = (c, negsuc 0)

unfoldable pub counter_get : CounterT → CounterT × ℤ
counter_get c = (c, negsuc 0)

unfoldable pub counter_reset : CounterT → CounterT × ℤ
counter_reset c = (c, negsuc 0)

-- f3/03: `bqueue_t` without its mutex and its condition variables, which nothing touches.
pub record Bqueue : Type 0 where
  pub buf : List ℤ
  pub head : ℕ
  pub tail : ℕ
  pub count : ℕ

unfoldable pub bqueue_init : Bqueue → Bqueue × ℤ
bqueue_init q = (q, negsuc 0)

unfoldable pub bqueue_destroy : Bqueue → Bqueue × ℤ
bqueue_destroy q = (q, negsuc 0)

unfoldable pub bqueue_put : Bqueue → ℤ → Bqueue × ℤ
bqueue_put q val = (q, negsuc 0)

unfoldable pub bqueue_get : Bqueue → ℤ → Bqueue × ℤ × ℤ
bqueue_get q val = (q, val, negsuc 0)

unfoldable pub bqueue_size : Bqueue → ℕ
bqueue_size q = 0

-- f3/04
pub record ElfInfo : Type 0 where
  pub valid : ℤ
  pub e_type : ℕ
  pub e_machine : ℕ
  pub e_entry : ℕ
  pub e_phnum : ℕ
  pub e_shnum : ℕ

unfoldable pub elf_parse : List ℕ → ElfInfo → ElfInfo × ℤ
elf_parse path info = (info, negsuc 0)

-- c3/01
unfoldable pub send_fd : ℤ → ℤ → ℤ
send_fd sock fd = negsuc 0

unfoldable pub recv_fd : ℤ → ℤ
recv_fd sock = negsuc 0

-- c3/02
unfoldable pub shm_setup : List ℕ → ℕ → ℤ
shm_setup name size = negsuc 0

unfoldable pub shm_map : ℤ → ℕ → Option ℕ
shm_map fd size = none

-- c3/03
pub record SpscRing : Type 0 where
  pub head : ℕ
  pub tail : ℕ
  pub buf : List ℤ

unfoldable pub spsc_push : SpscRing → ℤ → SpscRing × ℤ
spsc_push q v = (q, pos 0)

unfoldable pub spsc_pop : SpscRing → ℤ → SpscRing × ℤ × ℤ
spsc_pop q out = (q, out, pos 0)

-- c3/04: the word of the lock; `futex` passes on what the system call answers, as an `int`.
unfoldable pub futex : (syscall : ℤ → ℤ → ℤ → ℤ) → ℤ → ℤ → ℤ → ℤ
futex syscall a op val = syscall a op val

unfoldable pub futex_lock : ℤ → ℤ
futex_lock m = m

unfoldable pub futex_unlock : ℤ → ℤ
futex_unlock m = m

-- c3/05
abbrev pub mq_maxmsg : ℕ
mq_maxmsg = 10

abbrev pub mq_msgsize : ℕ
mq_msgsize = 256

unfoldable pub mq_setup : List ℕ → ℤ
mq_setup name = negsuc 0

unfoldable pub mq_send_msg : ℤ → List ℕ → ℕ → ℤ
mq_send_msg q s prio = negsuc 0

-- With what `buf` and `*prio` hold afterwards.
unfoldable pub mq_recv_msg : ℤ → List ℕ → ℕ → ℕ → List ℕ × ℕ × ℤ
mq_recv_msg q buf buflen prio = (buf, prio, negsuc 0)

-- c3/06: `SemQueue` with the values of its semaphores.
pub record SemQueue : Type 0 where
  pub buf : List ℤ
  pub empty : ℕ
  pub full : ℕ
  pub head : ℕ
  pub tail : ℕ

unfoldable pub sq_init : SemQueue → SemQueue × ℤ
sq_init q = (q, negsuc 0)

unfoldable pub sq_put : SemQueue → ℤ → SemQueue
sq_put q v = q

unfoldable pub sq_get : SemQueue → SemQueue × ℤ
sq_get q = (q, negsuc 0)

unfoldable pub sq_destroy : SemQueue → SemQueue
sq_destroy q = q
