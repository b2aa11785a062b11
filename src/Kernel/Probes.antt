-- ===== src/Kernel/Probes.antt =====
-- The probes of content/exercises/k7: 01-kprobe-count, 02-kretprobe-latency, 03-trace-printk and
-- 04-kprobe-arg, each in its starter.c.
use Prim.Native.String.{String}
use cppcourse.Base.{ℕ, ◌+◌, ◌%◌, ◌^◌, min, List, [], ◌∷◌, ◌++◌, none, some}
use cppcourse.Base.Int.{ℤ}
use cppcourse.Base.Text.{codes, decimal, print_ℤ}
use cppcourse.Kernel.Api.{
  Kernel, efault, enomem, Reply, proc, kprobe, kretprobe, registered, refused,
}
use cppcourse.Kernel.Device.{Call, Loaded, loaded, failed, fail, accept}

-- The per-CPU `hits`, each a `u64`; a handler that returns 0 lets the probed call go on.
unfoldable pub count_pre : List ℕ → List ℕ × ℕ
count_pre hits = (hits, 0)

-- The loop over the possible CPUs, with `u64` addition.
unfoldable pub total : List ℕ → ℕ → ℕ
total [] sum = sum
total (n ∷ counts) sum = total counts ((sum + n) % 2 ^ 64)

unfoldable pub count_show : String → List ℕ → List ℕ
count_show symbol hits = codes symbol ++ codes " hits=" ++ decimal (total hits 0) ++ codes "\n"

-- The proc entry first, the probe last.
unfoldable pub count_init : (k : Kernel) → String → k.World → Loaded k.World
count_init k symbol w = elim (k.register (proc "k7_kprobe") w) [
  | refused e ↦ failed enomem w
  | registered w1 ↦ elim (k.register (kprobe symbol) w1) [
    | refused ret ↦ failed ret (k.unregister (proc "k7_kprobe") w1)
    | registered w2 ↦ loaded w2
  ]
]

unfoldable pub count_exit : (k : Kernel) → String → k.World → k.World
count_exit k symbol w = k.unregister (proc "k7_kprobe") (k.unregister (kprobe symbol) w)

-- The latency probe: `count`, `last_ns` and `max_ns`.
pub record Latency : Type 0 where
  pub count : ℤ
  pub last_ns : ℤ
  pub max_ns : ℤ

unfoldable pub latency_ent : Latency → Latency × ℕ
latency_ent s = (s, 0)

unfoldable pub latency_ret : Latency → Latency × ℕ
latency_ret s = (s, 0)

unfoldable pub latency_show : String → Latency → List ℕ
latency_show symbol s =
    codes symbol
    ++ codes " count="
    ++ print_ℤ s.count
    ++ codes " last_ns="
    ++ print_ℤ s.last_ns
    ++ codes " max_ns="
    ++ print_ℤ s.max_ns
    ++ codes "\n"

unfoldable pub latency_init : (k : Kernel) → String → k.World → Loaded k.World
latency_init k symbol w = elim (k.register (proc "k7_lat") w) [
  | refused e ↦ failed enomem w
  | registered w1 ↦ elim (k.register (kretprobe symbol) w1) [
    | refused rc ↦ failed rc (k.unregister (proc "k7_lat") w1)
    | registered w2 ↦ loaded w2
  ]
]

unfoldable pub latency_exit : (k : Kernel) → String → k.World → k.World
latency_exit k symbol w = k.unregister (proc "k7_lat") (k.unregister (kretprobe symbol) w)

-- The trace writer: `buf` is filled and terminated, and not printed.
unfoldable pub k7_write : Kernel → Call → Reply
k7_write k c = elim (k.copy_from_user c.ubuf (min c.count 127)) [
  | none ↦ fail efault c
  | some bytes ↦ let buf = bytes ++ 0 ∷ [] in accept c.count c
]

unfoldable pub trace_init : (k : Kernel) → k.World → Loaded k.World
trace_init k w = elim (k.register (proc "k7_trace") w) [
  | registered w' ↦ loaded w'
  | refused e ↦ failed enomem w
]

unfoldable pub trace_exit : (k : Kernel) → k.World → k.World
trace_exit k w = k.unregister (proc "k7_trace") w

-- The argument probe: the per-CPU `cwd_opens`.
unfoldable pub arg_pre : List ℕ → List ℕ × ℕ
arg_pre cwd_opens = (cwd_opens, 0)

unfoldable pub arg_show : List ℕ → List ℕ
arg_show cwd_opens = codes "cwd_opens=" ++ decimal (total cwd_opens 0) ++ codes "\n"

unfoldable pub arg_init : (k : Kernel) → k.World → Loaded k.World
arg_init k w = elim (k.register (proc "k7_arg") w) [
  | refused e ↦ failed enomem w
  | registered w1 ↦ elim (k.register (kprobe "do_sys_openat2") w1) [
    | refused rc ↦ failed rc (k.unregister (proc "k7_arg") w1)
    | registered w2 ↦ loaded w2
  ]
]

unfoldable pub arg_exit : (k : Kernel) → k.World → k.World
arg_exit k w = k.unregister (proc "k7_arg") (k.unregister (kprobe "do_sys_openat2") w)
