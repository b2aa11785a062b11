-- ===== src/Kernel/Modules.antt =====
-- The kernel modules of the course, with what each registers when it is loaded and unloaded. 04-rcu-config of k2
-- is not among them: its load also leaves a configuration, in which Kernel/Config/Leak looks.
use Prim.Native.String.{String}
use cppcourse.Kernel.Api.{Kernel}
use cppcourse.Kernel.Device.{Loaded}
use cppcourse.Kernel.CharDevices.{
  my_init, my_exit, upper_init, upper_exit, info_init, info_exit, cnt_init, cnt_exit,
}
use cppcourse.Kernel.MaxTrack.{max_init, max_exit}
use cppcourse.Kernel.Stack.{StackState, stack_init, stack_exit}
use cppcourse.Kernel.Queue.{q_init, q_exit}
use cppcourse.Kernel.PerCpu.{pc_init, pc_exit, alloc_pc_init, alloc_pc_exit}
use cppcourse.Kernel.SeqLock.{seq_init, seq_exit}
use cppcourse.Kernel.Timer.{wq_init, wq_exit, timer_init, timer_exit}
use cppcourse.Kernel.Delayed.{dw_init, dw_exit}
use cppcourse.Kernel.Wakeup.{wake_init, wake_exit}
use cppcourse.Kernel.Slab.{slab_init, slab_exit, kv_init, kv_exit}
use cppcourse.Kernel.Page.{page_init, page_exit}
use cppcourse.Kernel.PseudoFs.{
  ListState, debugfs_init, debugfs_exit, procfs_init, procfs_exit, sysfs_init, sysfs_exit,
  ramfs_init, ramfs_exit,
}
use cppcourse.Kernel.Netfilter.{
  drop_init, drop_exit, port_init, port_exit, stats_init, stats_exit, ttl_init, ttl_exit,
}
use cppcourse.Kernel.Platform.{dtparse_init, dtparse_exit, mytimer_init, mytimer_exit}
use cppcourse.Kernel.Probes.{
  count_init, count_exit, latency_init, latency_exit, trace_init, trace_exit, arg_init, arg_exit,
}

-- A module, with what its load is given and the state in which it is unloaded.
pub data Module : Type 0 where
  char_device : Module
  misc_uppercase : Module
  readonly_info : Module
  open_counter : Module
  atomic_maxtrack : Module
  spinlock_stack : StackState → Module
  mutex_blockqueue : Module
  percpu_counter : Module
  seqlock_pair : Module
  workqueue : Module
  delayed_work : Module
  timer_source : Module
  blocking_wakeup : Module
  slab_cache : Module
  kvmalloc_buffer : Module
  page_alloc : Module
  percpu_alloc : Module
  debugfs : Module
  procfs : ListState → Module
  sysfs : Module
  ramfs_mini : Module
  nf_drop : Module
  nf_port_filter : Module
  nf_log_stats : Module
  nf_modify_ttl : Module
  kprobe_count : String → Module
  kretprobe_latency : String → Module
  trace_printk : Module
  kprobe_arg : Module
  dts_parse : Module
  platform_timer : Module

unfoldable pub load : (k : Kernel) → Module → k.World → Loaded k.World
load k char_device = my_init k
load k misc_uppercase = upper_init k
load k readonly_info = info_init k
load k open_counter = cnt_init k
load k atomic_maxtrack = max_init k
load k (spinlock_stack s) = stack_init k
load k mutex_blockqueue = q_init k
load k percpu_counter = pc_init k
load k seqlock_pair = seq_init k
load k workqueue = wq_init k
load k delayed_work = dw_init k
load k timer_source = timer_init k
load k blocking_wakeup = wake_init k
load k slab_cache = slab_init k
load k kvmalloc_buffer = kv_init k
load k page_alloc = page_init k
load k percpu_alloc = alloc_pc_init k
load k debugfs = debugfs_init k
load k (procfs s) = procfs_init k
load k sysfs = sysfs_init k
load k ramfs_mini = ramfs_init k
load k nf_drop = drop_init k
load k nf_port_filter = port_init k
load k nf_log_stats = stats_init k
load k nf_modify_ttl = ttl_init k
load k (kprobe_count symbol) = count_init k symbol
load k (kretprobe_latency symbol) = latency_init k symbol
load k trace_printk = trace_init k
load k kprobe_arg = arg_init k
load k dts_parse = dtparse_init k
load k platform_timer = mytimer_init k

unfoldable pub unload : (k : Kernel) → Module → k.World → k.World
unload k char_device = my_exit k
unload k misc_uppercase = upper_exit k
unload k readonly_info = info_exit k
unload k open_counter = cnt_exit k
unload k atomic_maxtrack = max_exit k
unload k (spinlock_stack s) = λ w. (stack_exit k w s).0
unload k mutex_blockqueue = q_exit k
unload k percpu_counter = pc_exit k
unload k seqlock_pair = seq_exit k
unload k workqueue = wq_exit k
unload k delayed_work = dw_exit k
unload k timer_source = timer_exit k
unload k blocking_wakeup = wake_exit k
unload k slab_cache = slab_exit k
unload k kvmalloc_buffer = kv_exit k
unload k page_alloc = page_exit k
unload k percpu_alloc = alloc_pc_exit k
unload k debugfs = debugfs_exit k
unload k (procfs s) = λ w. (procfs_exit k w s).0
unload k sysfs = sysfs_exit k
unload k ramfs_mini = ramfs_exit k
unload k nf_drop = drop_exit k
unload k nf_port_filter = port_exit k
unload k nf_log_stats = stats_exit k
unload k nf_modify_ttl = ttl_exit k
unload k (kprobe_count symbol) = count_exit k symbol
unload k (kretprobe_latency symbol) = latency_exit k symbol
unload k trace_printk = trace_exit k
unload k kprobe_arg = arg_exit k
unload k dts_parse = dtparse_exit k
unload k platform_timer = mytimer_exit k
