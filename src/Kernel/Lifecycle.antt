-- ===== src/Kernel/Lifecycle.antt =====
-- Load and unload of the kernel modules of the course: what they register.
use Prim.Native.String.{String}
use cppcourse.Base.{refl}
use cppcourse.Kernel.Api.{platform_driver}
use cppcourse.Kernel.Api.{
  Kernel, IsKernel, einval, enomem, misc, proc, nf_hook, kprobe, kretprobe, filesystem,
}
use cppcourse.Kernel.Device.{Undone}
use cppcourse.Kernel.CharDevices.{
  my_init, my_exit, upper_init, upper_exit, info_init, info_exit, cnt_init, cnt_exit,
}
use cppcourse.Kernel.MaxTrack.{max_init, max_exit}
use cppcourse.Kernel.Stack.{stack_init, stack_exit}
use cppcourse.Kernel.Queue.{q_init, q_exit}
use cppcourse.Kernel.PerCpu.{pc_init, pc_exit, alloc_pc_init, alloc_pc_exit}
use cppcourse.Kernel.SeqLock.{seq_init, seq_exit}
use cppcourse.Kernel.Timer.{wq_init, wq_exit, timer_init, timer_exit}
use cppcourse.Kernel.Delayed.{dw_init, dw_exit}
use cppcourse.Kernel.Wakeup.{wake_init, wake_exit}
use cppcourse.Kernel.Slab.{slab_init, slab_exit, kv_init, kv_exit}
use cppcourse.Kernel.Page.{page_init, page_exit}
use cppcourse.Kernel.PseudoFs.{
  debugfs_init, debugfs_exit, procfs_init, procfs_exit, sysfs_init, sysfs_exit, ramfs_init,
  ramfs_exit,
}
use cppcourse.Kernel.Netfilter.{
  drop_init, drop_exit, port_init, port_exit, stats_init, stats_exit, ttl_init, ttl_exit,
}
use cppcourse.Kernel.Platform.{dtparse_init, dtparse_exit, mytimer_init, mytimer_exit}
use cppcourse.Kernel.Probes.{
  count_init, count_exit, latency_init, latency_exit, trace_init, trace_exit, arg_init, arg_exit,
}
use cppcourse.Kernel.Modules.{
  Module, char_device, misc_uppercase, readonly_info, open_counter, atomic_maxtrack, spinlock_stack,
  mutex_blockqueue, percpu_counter, seqlock_pair, workqueue, delayed_work, timer_source,
  blocking_wakeup, slab_cache, kvmalloc_buffer, page_alloc, percpu_alloc, debugfs, procfs, sysfs,
  ramfs_mini, nf_drop, nf_port_filter, nf_log_stats, nf_modify_ttl, kprobe_count, kretprobe_latency,
  trace_printk, kprobe_arg, dts_parse, platform_timer, load, unload,
}
use cppcourse.Kernel.Stages.{one_stage-Undone, two_stages-Undone, sysfs-Undone}

module _ (k : Kernel) (ok : IsKernel k) where
  -- What a load registers is undone when it fails, and when the module is unloaded.
  load-Undone : (m : Module) (w : k.World) → Undone k (unload k m) w (load k m w)
  unfolding load unload my_init my_exit upper_init upper_exit info_init info_exit cnt_init cnt_exit
      max_init max_exit stack_init stack_exit q_init q_exit pc_init pc_exit alloc_pc_init
      alloc_pc_exit seq_init seq_exit wq_init wq_exit timer_init timer_exit dw_init dw_exit
      wake_init wake_exit slab_init slab_exit kv_init kv_exit page_init page_exit debugfs_init
      debugfs_exit procfs_init procfs_exit sysfs_init sysfs_exit ramfs_init ramfs_exit drop_init
      drop_exit port_init port_exit stats_init stats_exit ttl_init ttl_exit count_init count_exit
      latency_init latency_exit trace_init trace_exit arg_init arg_exit dtparse_init dtparse_exit
      mytimer_init mytimer_exit
  load-Undone char_device w = refl
  load-Undone misc_uppercase w = refl
  load-Undone readonly_info w = refl
  load-Undone open_counter w = refl
  load-Undone atomic_maxtrack w = one_stage-Undone k ok (λ e. e) (misc "cppmax") w
  load-Undone (spinlock_stack s) w = one_stage-Undone k ok (λ e. e) (misc "cppstack") w
  load-Undone mutex_blockqueue w = one_stage-Undone k ok (λ e. e) (misc "cppq") w
  load-Undone percpu_counter w = one_stage-Undone k ok (λ e. e) (misc "cpppercpu") w
  load-Undone seqlock_pair w = one_stage-Undone k ok (λ e. e) (misc "cppseq") w
  load-Undone workqueue w = refl
  load-Undone delayed_work w = refl
  load-Undone timer_source w = refl
  load-Undone blocking_wakeup w = refl
  load-Undone slab_cache w = one_stage-Undone k ok (λ e. e) (misc "cppslab") w
  load-Undone kvmalloc_buffer w = one_stage-Undone k ok (λ e. e) (misc "cppkv") w
  load-Undone page_alloc w = one_stage-Undone k ok (λ e. e) (misc "cpppage") w
  load-Undone percpu_alloc w = one_stage-Undone k ok (λ e. e) (misc "cpppc") w
  load-Undone debugfs w = refl
  load-Undone (procfs s) w = one_stage-Undone k ok (λ _. enomem) (proc "k5_list") w
  load-Undone sysfs w = sysfs-Undone k ok w
  load-Undone ramfs_mini w = one_stage-Undone k ok (λ e. e) (filesystem "k5fs") w
  load-Undone nf_drop w = one_stage-Undone k ok (λ e. e) (nf_hook) w
  load-Undone nf_port_filter w = one_stage-Undone k ok (λ e. e) (nf_hook) w
  load-Undone nf_log_stats w =
      two_stages-Undone k ok (λ _. enomem) (λ _. einval) (proc "k6_stats") nf_hook w
  load-Undone nf_modify_ttl w = one_stage-Undone k ok (λ e. e) (nf_hook) w
  load-Undone (kprobe_count symbol) w =
      two_stages-Undone k ok (λ _. enomem) (λ e. e) (proc "k7_kprobe") (kprobe symbol) w
  load-Undone (kretprobe_latency symbol) w =
      two_stages-Undone k ok (λ _. enomem) (λ e. e) (proc "k7_lat") (kretprobe symbol) w
  load-Undone trace_printk w = one_stage-Undone k ok (λ _. enomem) (proc "k7_trace") w
  load-Undone kprobe_arg w =
      two_stages-Undone k ok (λ _. enomem) (λ e. e) (proc "k7_arg") (kprobe "do_sys_openat2") w
  load-Undone dts_parse w = one_stage-Undone k ok (λ e. e) (platform_driver "dt-parse") w
  load-Undone platform_timer w = one_stage-Undone k ok (λ e. e) (platform_driver "course-timer") w

  -- The five modules that register two things, and so have a half of their load to take back: whichever of
  -- the two is refused, with any error, nothing more is registered behind the load than before it; and if
  -- neither is, unloading leads back there.
  pub two_registrations-Undone :
      (symbol : String) (w : k.World)
      → Undone k (unload k nf_log_stats) w (load k nf_log_stats w)
        × Undone k (unload k (kprobe_count symbol)) w (load k (kprobe_count symbol) w)
        × Undone k (unload k (kretprobe_latency symbol)) w (load k (kretprobe_latency symbol) w)
        × Undone k (unload k kprobe_arg) w (load k kprobe_arg w)
        × Undone k (unload k sysfs) w (load k sysfs w)
  two_registrations-Undone symbol w = (
    load-Undone nf_log_stats w,
    load-Undone (kprobe_count symbol) w,
    load-Undone (kretprobe_latency symbol) w,
    load-Undone kprobe_arg w,
    load-Undone sysfs w,
  )
