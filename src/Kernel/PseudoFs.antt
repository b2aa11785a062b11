-- ===== src/Kernel/PseudoFs.antt =====
-- The pseudo file systems of content/exercises/k5: 01-debugfs, 02-procfs, 03-sysfs and
-- 04-ramfs-mini, each in its starter.c.
use cppcourse.Base.{ℕ, ◌-◌, List, [], ◌∷◌, Option}
use cppcourse.Base.{Bool, true, false}
use cppcourse.Base.Int.{ℤ}
use cppcourse.Kernel.Api.{
  Kernel, enomem, Reply, Ret, proc, kobject, sysfs_file, filesystem, registered, refused,
}
use cppcourse.Kernel.Device.{Call, Loaded, loaded, failed, accept, register_init}

-- debugfs: the handler copies nothing.
unfoldable pub status_read : Call → Reply
status_read c = record { ret = Ret.count 0; copied = []; pos = c.pos }

unfoldable pub debugfs_init : (k : Kernel) → k.World → Loaded k.World
debugfs_init k w = loaded w

unfoldable pub debugfs_exit : (k : Kernel) → k.World → k.World
debugfs_exit k w = w

-- procfs: `k5_list` by its messages, whether `k5_lock` is held, and the allocated nodes.
pub record ListState : Type 0 where
  pub k5_list : List (List ℕ)
  pub k5_lock : Bool
  pub live : ℕ

-- The mutex is taken first and stays taken.
unfoldable pub k5_seq_start : Kernel → ℕ → ListState → ListState × Option ℕ
k5_seq_start k pos s = (record s { k5_lock = true }, k.seq_list_start s.k5_list pos)

unfoldable pub k5_seq_next : Kernel → ℕ → ℕ → ListState → ℕ × Option ℕ
k5_seq_next k v pos s = k.seq_list_next v s.k5_list pos

unfoldable pub k5_seq_stop : ListState → ListState
k5_seq_stop s = record s { k5_lock = false }

-- What is shown of an element: nothing.
unfoldable pub k5_seq_show : List ℕ → List ℕ
k5_seq_show msg = []

unfoldable pub k5_proc_write : Call → ListState → ListState × Reply
k5_proc_write c s = (s, accept c.count c)

unfoldable pub procfs_init : (k : Kernel) → k.World → Loaded k.World
procfs_init k w = elim (k.register (proc "k5_list") w) [
  | registered w' ↦ loaded w'
  | refused e ↦ failed enomem w
]

free_nodes : List (List ℕ) → ListState → ListState
free_nodes [] s = s
free_nodes (n ∷ nodes) s = free_nodes nodes (record s { k5_list = nodes; live = s.live - 1 })

unfoldable pub procfs_exit : (k : Kernel) → k.World → ListState → k.World × ListState
unfolding free_nodes
procfs_exit k w s = (k.unregister (proc "k5_list") w, free_nodes s.k5_list s)

-- sysfs: `k5_mode` is the state.
unfoldable pub mode_level_show : ℤ → Ret
mode_level_show k5_mode = Ret.count 0

unfoldable pub mode_level_store : ℕ → ℤ → ℤ × Ret
mode_level_store count k5_mode = (k5_mode, Ret.count count)

unfoldable pub sysfs_init : (k : Kernel) → k.World → Loaded k.World
sysfs_init k w = elim (k.register (kobject "k5_device") w) [
  | refused e ↦ failed enomem w
  | registered w1 ↦ elim (k.register (sysfs_file "k5_device" "mode_level") w1) [
    | refused ret ↦ failed ret (k.unregister (kobject "k5_device") w1)
    | registered w2 ↦ loaded w2
  ]
]

unfoldable pub sysfs_exit : (k : Kernel) → k.World → k.World
sysfs_exit k w = k.unregister (kobject "k5_device") w

-- ramfs: what `k5fs_fill_super` leaves in the super block. PAGE_SIZE is 4096, PAGE_SHIFT is 12.
pub record SuperBlock : Type 0 where
  pub s_magic : ℕ
  pub s_blocksize : ℕ
  pub s_blocksize_bits : ℕ
  pub has_simple_statfs : Bool
  pub s_time_gran : ℕ

unfoldable pub k5fs_fill_super : SuperBlock → SuperBlock × Ret
k5fs_fill_super sb = (
  record {
    s_magic = 0x6b356673;
    s_blocksize = 4096;
    s_blocksize_bits = 12;
    has_simple_statfs = true;
    s_time_gran = 1;
  },
  Ret.error enomem,
)

unfoldable pub ramfs_init : (k : Kernel) → k.World → Loaded k.World
ramfs_init k w = register_init k (filesystem "k5fs") w

unfoldable pub ramfs_exit : (k : Kernel) → k.World → k.World
ramfs_exit k w = k.unregister (filesystem "k5fs") w
