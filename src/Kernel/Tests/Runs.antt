-- ===== src/Kernel/Tests/Runs.antt =====
-- Runs of the modules in the small kernel.
use cppcourse.Base.{ℕ, ◌≡◌, refl, arith, true, List, [], ◌∷◌, none, some, take, replicate}
use cppcourse.Base.Int.{pos}
use cppcourse.Base.Text.{codes}
use cppcourse.Base.{length-replicate}
use cppcourse.Base.Text.{digits, starts_with, c_str, print_ℤ, decimal}
use cppcourse.Kernel.Stack.{push_arg, list_items}
use cppcourse.Kernel.Config.{parse_cfg, split_space}
use cppcourse.Kernel.Netfilter.{stats_init}
use cppcourse.Kernel.Api.{count, einval, misc}
use cppcourse.Kernel.Device.{Call, Undone, loaded, failed}
use cppcourse.Kernel.Client.{cat, HasRoom}
use cppcourse.Kernel.Tests.{small_kernel, small_kernel-IsKernel}
use cppcourse.Kernel.Modules.{
  load, unload, nf_log_stats, kprobe_count, kretprobe_latency, kprobe_arg, sysfs,
}
use cppcourse.Kernel.Ordering
use cppcourse.Base.{Option}
use cppcourse.Kernel.Api.{Resource, Errno}
use cppcourse.Kernel.Lifecycle.{two_registrations-Undone}
use cppcourse.Kernel.Stack.{StackState, empty, stack_exit, stack_read, end_line}
use cppcourse.Kernel.Stack.Leak as StackLeak
use cppcourse.Kernel.Stack.Leak.{push_count, serve-leaks_items}
use cppcourse.Kernel.Stack.Listing.{listing, cat-stack_read}
use cppcourse.Kernel.Config.{CfgState, boot, unloaded, cfg_init, cfg_exit}
use cppcourse.Kernel.Config.Leak as ConfigLeak
use cppcourse.Kernel.Config.Leak.{update_count}
use cppcourse.Kernel.Page.Refine as PageRefine
use cppcourse.Kernel.Netfilter.{Stats, total_stats, k6_show}

-- There is room for the proc entry, and none for the hook behind it.
load_test : load (small_kernel 1) nf_log_stats [] ≡ failed einval []
unfolding load stats_init
load_test = refl

two_registrations-Undone_example :
    let k = small_kernel 1 in
    Undone k (unload k nf_log_stats) [] (load k nf_log_stats [])
    × Undone k (unload k (kprobe_count "vfs_read")) [] (load k (kprobe_count "vfs_read") [])
    × Undone k
        (unload k (kretprobe_latency "vfs_read"))
        []
        (load k (kretprobe_latency "vfs_read") [])
    × Undone k (unload k kprobe_arg) [] (load k kprobe_arg [])
    × Undone k (unload k sysfs) [] (load k sysfs [])
two_registrations-Undone_example =
    two_registrations-Undone (small_kernel 1) (small_kernel-IsKernel 1) "vfs_read" []

abbrev push : Call
push = record { ubuf = 1; count = 8; pos = 0; memory = true }

abbrev pushes : List StackLeak.Request
pushes = StackLeak.write push ∷ StackLeak.read push ∷ StackLeak.write push ∷ []

push_count_test : push_count (small_kernel 1) pushes ≡ 2
unfolding push_count StackLeak.pushes push_arg starts_with c_str
push_count_test = refl

serve-leaks_items_example :
    ((StackLeak.serve (small_kernel 1) pushes empty).stack ≡ [])
    × ((stack_exit (small_kernel 1) [] (StackLeak.serve (small_kernel 1) pushes empty)).1
        ≡ record { stack = []; live = push_count (small_kernel 1) pushes })
serve-leaks_items_example = serve-leaks_items (small_kernel 1) [] pushes

abbrev two_items : StackState
two_items = record { stack = pos 7 ∷ pos 12 ∷ []; live = 3 }

abbrev look : Call
look = record { ubuf = 3; count = 10; pos = 0; memory = true }

stack_read_returns : (stack_read (small_kernel 1) look two_items).1.ret ≡ count 5
unfolding stack_read list_items end_line print_ℤ decimal digits
stack_read_returns = refl

room : (ubuf n : ℕ) → HasRoom (small_kernel 1) ubuf n
room ubuf n p text = refl

cat-stack_read_example :
    cat (stack_read (small_kernel 1)) 3 2 4096 two_items 0
    ≡ some (end_line (take 4095 (listing two_items.stack)))
cat-stack_read_example =
    cat-stack_read (small_kernel 1) (small_kernel-IsKernel 1) two_items 3 2 4096 (room 3 2)
      (omega arith) (omega arith)

-- The client needs four reads for the line "7 12" in pieces of two bytes.
cat_test : cat (stack_read (small_kernel 1)) 3 2 4 two_items 0 ≡ some (codes "7 12\n")
unfolding cat stack_read list_items end_line print_ℤ decimal digits
cat_test = refl

abbrev configure : Call
configure = record { ubuf = 2; count = 7; pos = 0; memory = true }

abbrev updates : List ConfigLeak.Request
updates = ConfigLeak.write configure ∷ ConfigLeak.read configure ∷ []

abbrev booted : CfgState
booted = record { current_cfg = some boot; live = 1 }

update_count_test : update_count (small_kernel 1) updates ≡ 1
unfolding update_count ConfigLeak.updates parse_cfg split_space c_str
update_count_test = refl

cfg_init_refused : cfg_init (small_kernel 0) true [] unloaded ≡ (failed einval [], booted)
unfolding cfg_init
cfg_init_refused = refl

cfg_init_loaded : cfg_init (small_kernel 1) true [] unloaded ≡ (loaded (misc "cppcfg" ∷ []), booted)
unfolding cfg_init
cfg_init_loaded = refl

serve-leaks_cfgs_example :
    ((ConfigLeak.serve (small_kernel 1) updates booted).current_cfg ≡ some boot)
    × ((cfg_exit
          (small_kernel 1)
          (misc "cppcfg" ∷ [])
          (ConfigLeak.serve (small_kernel 1) updates booted)).1
        ≡ record { current_cfg = none; live = update_count (small_kernel 1) updates })
serve-leaks_cfgs_example =
    ConfigLeak.serve-leaks_cfgs (small_kernel 1) true [] (misc "cppcfg" ∷ []) booted updates
      cfg_init_loaded

abbrev blank_page : List ℕ
blank_page = replicate 4096 0

abbrev hello : Call
hello = record { ubuf = 3; count = 5; pos = 0; memory = true }

abbrev page_requests : List PageRefine.Request
page_requests = PageRefine.write hello ∷ PageRefine.read hello ∷ []

serve-spec_serve_example :
    PageRefine.serve (small_kernel 1) page_requests (PageRefine.with_page blank_page 0)
    ≡ PageRefine.spec_serve (small_kernel 1) page_requests (PageRefine.store (some blank_page) 0)
serve-spec_serve_example =
    PageRefine.serve-spec_serve (small_kernel 1) (small_kernel-IsKernel 1) page_requests
      (PageRefine.with_page blank_page 0) (length-replicate {A = ℕ} 4096 0, omega arith)

abbrev two_cpus : List Stats
two_cpus =
    record { tcp = 3; udp = 1; icmp = 0; other = 2 }
    ∷ record { tcp = 4; udp = 0; icmp = 1; other = 0 }
    ∷ []

k6_show_test : k6_show two_cpus ≡ codes "tcp=7 udp=1 icmp=1 other=2\n"
unfolding k6_show total_stats decimal digits
k6_show_test = refl

abbrev grant_all : Resource → Option Errno
grant_all r = none

load-Shown_example :
    Ordering.ShownThrough
      (unload (Ordering.logging (small_kernel 1) grant_all) nf_log_stats)
      (load (Ordering.logging (small_kernel 1) grant_all) nf_log_stats [])
load-Shown_example = Ordering.load-Shown (small_kernel 1) grant_all nf_log_stats [] refl tt
