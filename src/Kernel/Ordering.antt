-- ===== src/Kernel/Ordering.antt =====
-- The order in which the modules of content/exercises/k6 and content/exercises/k7 that show what they
-- have seen register and unregister: 03-nf-log-stats, 01-kprobe-count, 02-kretprobe-latency and
-- 04-kprobe-arg. The kernel is one that keeps a log.
use cppcourse.Base.{
  ℕ, ◌+◌, ◌-◌, ◌≤◌, ◌≡◌, refl, arith, inl, inr, Bool, true, false, List, [], ◌∷◌, Option, none,
  some, Option-cases,
}
use cppcourse.Kernel.Api.{
  Kernel, Errno, Resource, proc, nf_hook, kprobe, kretprobe, registered, refused, einval, enomem,
}
use cppcourse.Kernel.Device.{Loaded, loaded, failed}
use cppcourse.Kernel.Netfilter.{stats_init, stats_exit}
use cppcourse.Kernel.Probes.{count_init, count_exit, latency_init, latency_exit, arg_init, arg_exit}
use cppcourse.Kernel.Modules.{
  Module, nf_log_stats, kprobe_count, kretprobe_latency, kprobe_arg, load, unload,
}
use cppcourse.Kernel.Stages.{two_stages}

pub data Event : Type 0 where
  up : Resource → Event
  down : Resource → Event

-- A kernel whose registrations are the log, the last one first. It refuses what `refusal` gives an
-- error for; all else it does as `k`.
abbrev pub logging : Kernel → (Resource → Option Errno) → Kernel
logging k refusal = record {
  World = List Event;
  register = λ r w. elim (refusal r) [ none ↦ registered (up r ∷ w) | some e ↦ refused e ];
  unregister = λ r w. down r ∷ w;
  copy_from_user = k.copy_from_user;
  copied_before_fault = k.copied_before_fault;
  copy_to_user = k.copy_to_user;
  simple_read_from_buffer = k.simple_read_from_buffer;
  kstrtol = k.kstrtol;
  kstrtoint = k.kstrtoint;
  strim = k.strim;
  scnprintf = k.scnprintf;
  seq_list_start = k.seq_list_start;
  seq_list_next = k.seq_list_next;
}

-- A source of calls into the module: a packet hook or a probe.
abbrev pub is_source : Resource → ℕ
is_source nf_hook = 1
is_source (kprobe s) = 1
is_source (kretprobe s) = 1
is_source _ = 0

abbrev pub is_entry : Resource → ℕ
is_entry (proc s) = 1
is_entry _ = 0

-- How many of a kind are registered after the log.
abbrev pub standing : (Resource → ℕ) → List Event → ℕ
standing kind [] = 0
standing kind (up r ∷ w) = standing kind w + kind r
standing kind (down r ∷ w) = standing kind w - kind r

-- At each moment of the log there was a proc entry for each hook and probe.
abbrev pub Shown : List Event → Type 0
Shown [] = Unit
Shown (e ∷ w) = (standing is_source (e ∷ w) ≤ standing is_entry (e ∷ w)) × Shown w

-- After a load, and after unloading where it succeeded.
abbrev pub ShownThrough : (List Event → List Event) → Loaded (List Event) → Type 0
ShownThrough unload (loaded w) = Shown w × Shown (unload w)
ShownThrough unload (failed e w) = Shown w

-- The modules that count in a hook or a probe and show the counts in a proc entry.
abbrev pub shows_counts : Module → Bool
shows_counts nf_log_stats = true
shows_counts (kprobe_count symbol) = true
shows_counts (kretprobe_latency symbol) = true
shows_counts kprobe_arg = true
shows_counts _ = false

Shown-head : (w : List Event) → Shown w → standing is_source w ≤ standing is_entry w
Shown-head [] h = omega arith
Shown-head (e ∷ w) h = h.0

module _ (k : Kernel) (refusal : Resource → Option Errno) where
  abbrev log : Kernel
  log = logging k refusal

  stages-Shown :
      (e₁ e₂ : Errno → Errno) (entry source : Resource) (w : List Event)
      → is_entry entry ≡ 1
      → is_source entry ≡ 0
      → is_entry source ≡ 0
      → is_source source ≡ 1
      → Shown w
      → ShownThrough (λ v. down entry ∷ down source ∷ v) (two_stages log e₁ e₂ entry source w)
  stages-Shown e₁ e₂ entry source w a b c d h =
      let top = Shown-head w h in
      let first : Shown (up entry ∷ w) = (omega arith, h) in
      elim (Option-cases (refusal entry)) [
        | inr (x, q) ↦ rw (q, two_stages) h
        | inl q ↦ elim (Option-cases (refusal source)) [
          | inr (y, p) ↦ rw (q, p, two_stages) (omega arith, first)
          | inl p ↦
              let second : Shown (up source ∷ up entry ∷ w) = (omega arith, first) in
              rw (q, p, two_stages) (second, (omega arith, (omega arith, second)))
        ]
      ]

  -- Whatever the kernel refuses, while the packet statistics or one of the three counting probes is loaded,
  -- running and unloaded, at each moment its hook or probe is registered only if its proc entry is.
  pub load-Shown :
      (m : Module) (w : List Event)
      → shows_counts m ≡ true
      → Shown w
      → ShownThrough (unload log m) (load log m w)
  unfolding load unload stats_init stats_exit count_init count_exit latency_init latency_exit
      arg_init arg_exit
  load-Shown nf_log_stats w m h =
      stages-Shown (λ _. enomem) (λ _. einval) (proc "k6_stats") nf_hook w refl refl refl refl h
  load-Shown (kprobe_count symbol) w m h =
      stages-Shown (λ _. enomem) (λ e. e) (proc "k7_kprobe") (kprobe symbol) w refl refl refl refl h
  load-Shown (kretprobe_latency symbol) w m h =
      stages-Shown (λ _. enomem) (λ e. e) (proc "k7_lat") (kretprobe symbol) w refl refl refl refl h
  load-Shown kprobe_arg w m h =
      stages-Shown (λ _. enomem) (λ e. e) (proc "k7_arg") (kprobe "do_sys_openat2") w refl refl refl
        refl h
  load-Shown _ w m h = cc
