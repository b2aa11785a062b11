-- ===== src/Kernel/Api.antt =====
-- The kernel functions that the modules call. They are not part of the repository, so they are
-- parameters: each field states what the modules rely on.
use Prim.Native.String.{String}
use cppcourse.Base.{◌≤◌, ℕ, ◌+◌, ◌-◌, ◌<◌, ◌≡◌, Bool, List, Option, some, length, take, drop}
use cppcourse.Base.Int.{ℤ}

pub data Errno : Type 0 where
  einval efault enomem : Errno
  -- any other code, such as those that a registration returns
  other : ℕ → Errno

-- The `ssize_t` or `int` of a handler: a count, or a negative error code.
pub data Ret : Type 0 where
  count : ℕ → Ret
  error : Errno → Ret

-- What a handler leaves for its caller: the return value, the bytes copied to user memory and the
-- file position.
pub record Reply : Type 0 where
  pub ret : Ret
  pub copied : List ℕ
  pub pos : ℕ

-- Something that a module registers with the kernel, and must take away again.
pub data Resource : Type 0 where
  misc : String → Resource
  proc : String → Resource
  nf_hook : Resource
  kprobe : String → Resource
  kretprobe : String → Resource
  kobject : String → Resource
  sysfs_file : String → String → Resource
  filesystem : String → Resource
  platform_driver : String → Resource

pub data Registered (World : Type 0) : Type 0 where
  registered : World → Registered World
  refused : Errno → Registered World

-- `strim(s)` cuts the white space at the end of the buffer in place, and returns the position
-- behind the white space at its start.
pub record Trimmed : Type 0 where
  pub left : List ℕ
  pub start : List ℕ

pub record Kernel : Type 1 where
  -- what is registered at present
  pub World : Type 0
  pub register : Resource → World → Registered World
  pub unregister : Resource → World → World
  -- `copy_from_user(buf, u, n)`: the `n` bytes, or a fault
  pub copy_from_user : ℕ → ℕ → Option (List ℕ)
  -- what a copy that faults has written to the start of the buffer by then
  pub copied_before_fault : ℕ → ℕ → List ℕ
  -- `copy_to_user(u, bytes, n)`: whether all was copied
  pub copy_to_user : ℕ → List ℕ → Bool
  pub simple_read_from_buffer : ℕ → ℕ → ℕ → List ℕ → Reply
  pub kstrtol : List ℕ → Option ℤ
  pub kstrtoint : List ℕ → Option ℤ
  pub strim : List ℕ → Trimmed
  -- `scnprintf(buf, size, …)` on the formatted text: what it writes before the NUL
  pub scnprintf : ℕ → List ℕ → List ℕ
  -- the element of a list at a position, by its index
  pub seq_list_start : List (List ℕ) → ℕ → Option ℕ
  -- the element behind the one given, and the new position
  pub seq_list_next : ℕ → List (List ℕ) → ℕ → ℕ × Option ℕ

-- What the kernel documents of these functions, as far as the proofs rely on it.
pub record IsKernel (k : Kernel) : Type 0 where
  -- Taking away what was just registered leads back.
  pub unregister-register :
      (r : Resource) (w w' : k.World) → k.register r w ≡ registered w' → k.unregister r w' ≡ w
  -- Releasing a kobject takes its sysfs files along.
  pub unregister-sysfs_file :
      (o f : String) (w w' : k.World)
      → k.register (sysfs_file o f) w ≡ registered w'
      → k.unregister (kobject o) w' ≡ k.unregister (kobject o) w
  pub length-copy_from_user :
      (u n : ℕ) (bytes : List ℕ) → k.copy_from_user u n ≡ some bytes → length bytes ≡ n
  pub length-copied_before_fault : (u n : ℕ) → length (k.copied_before_fault u n) ≤ n
  -- A read from a buffer returns an error, or how many bytes it has copied from the position on: no more than
  -- were asked for and are there, and fewer if the copy to user memory faults on the way.
  pub simple_read :
      (u n pos : ℕ) (buf : List ℕ) (c : ℕ)
      → (k.simple_read_from_buffer u n pos buf).ret ≡ count c
      → ((k.simple_read_from_buffer u n pos buf).copied ≡ take c (drop pos buf))
        × (c ≤ length (take n (drop pos buf)))
        × ((k.simple_read_from_buffer u n pos buf).pos ≡ pos + c)
  pub scnprintf_lem :
      (size : ℕ) (text : List ℕ) → 0 < size → k.scnprintf size text ≡ take (size - 1) text
