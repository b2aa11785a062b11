-- ===== src/Kernel/Device.antt =====
-- The tables by which a module offers its handlers, and its two ends, load and unload.
use Prim.Native.String.{String}
use cppcourse.Base.{ℕ, Bool, [], Option, ◌≡◌}
use cppcourse.Kernel.Api.{Kernel, Errno, Ret, Reply, Resource, misc, registered, refused}

-- The arguments of `read` and `write`, and whether `kmalloc` succeeds during the call.
pub record Call : Type 0 where
  pub ubuf : ℕ
  pub count : ℕ
  pub pos : ℕ
  pub memory : Bool

abbrev pub Handler : Type 0 → Type 0
Handler S = Call → S → S × Reply

-- `struct file_operations` or `struct proc_ops`; `none` is a member that is not set.
pub record FileOps (S : Type 0) : Type 0 where
  pub read : Option (Handler S)
  pub write : Option (Handler S)
  pub open_file : Option (S → S × Ret)
  pub release : Option (S → S × Ret)
  -- the poll mask
  pub poll : Option (S → S × ℕ)

-- `struct miscdevice` with a dynamic minor; `none` is the default mode.
pub record MiscDevice (S : Type 0) : Type 0 where
  pub name : String
  pub fops : FileOps S
  pub mode : Option ℕ

-- What a module's init leaves: success, or the error it returns, and what is registered then.
pub data Loaded (World : Type 0) : Type 0 where
  loaded : World → Loaded World
  failed : Errno → World → Loaded World

-- An error reply: nothing copied, the position unchanged.
abbrev pub fail : Errno → Call → Reply
fail e c = record { ret = Ret.error e; copied = []; pos = c.pos }

-- A `write` that returns `n`.
abbrev pub accept : ℕ → Call → Reply
accept n c = record { ret = Ret.count n; copied = []; pos = c.pos }

-- An init whose last call is the registration of `r`, and returns what that returns.
abbrev pub register_init : (k : Kernel) → Resource → k.World → Loaded k.World
register_init k r w = elim (k.register r w) [ registered w' ↦ loaded w' | refused e ↦ failed e w ]

-- `return misc_register(&dev)`
abbrev pub misc_init : {S : Type 0} (k : Kernel) → MiscDevice S → k.World → Loaded k.World
misc_init k dev w = register_init k (misc dev.name) w

abbrev pub misc_exit : {S : Type 0} (k : Kernel) → MiscDevice S → k.World → k.World
misc_exit k dev w = k.unregister (misc dev.name) w

-- What a load from `w` leaves: after an error, `w`; after success, what unloading takes back to `w`.
abbrev pub Undone : (k : Kernel) → (k.World → k.World) → k.World → Loaded k.World → Type 0
Undone k unload w (loaded w') = unload w' ≡ w
Undone k unload w (failed e w') = w' ≡ w
