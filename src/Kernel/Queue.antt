-- ===== src/Kernel/Queue.antt =====
-- content/exercises/k2/03-mutex-blockqueue/starter.c: a ring of messages behind a misc device.
use cppcourse.Base.{ℕ, ◌-◌, ◌+◌, min, ◌==◌, List, [], ◌∷◌, ◌++◌, none, some, length, take}
use cppcourse.Base.{get_or, if◌then◌else◌, ltb, ◌&&◌, replicate, set}
use cppcourse.Base.Text.{c_str}
use cppcourse.Kernel.Api.{Kernel, efault, Ret}
use cppcourse.Kernel.Device.{
  Handler, FileOps, MiscDevice, Loaded, fail, accept, misc_init, misc_exit,
}

abbrev pub qcap : ℕ
qcap = 16

abbrev pub msg_max : ℕ
msg_max = 96

-- `q`, `q_head`, `q_tail` and `q_count`.
pub record QueueState : Type 0 where
  pub q : List (List ℕ)
  pub q_head : ℕ
  pub q_tail : ℕ
  pub q_count : ℕ

abbrev pub initial : QueueState
initial = record { q = replicate qcap (replicate msg_max 0); q_head = 0; q_tail = 0; q_count = 0 }

-- The message in `tmp`: the bytes, NUL-terminated, with a line end at the end cut off.
unfoldable pub message : List ℕ → List ℕ
message bytes =
    let n = length bytes in
    if ltb 0 n && get_or bytes (n - 1) 0 == b'\n'
    then set bytes (n - 1) 0 ++ 0 ∷ []
    else bytes ++ 0 ∷ []

-- The message is built and not used.
unfoldable pub q_write : Kernel → Handler QueueState
q_write k c s = elim (k.copy_from_user c.ubuf (min c.count (msg_max - 1))) [
  | none ↦ (s, fail efault c)
  | some bytes ↦ let tmp = message bytes in (s, accept c.count c)
]

-- `strscpy(tmp, "", MSGMAX)`; the bytes behind the NUL, which nothing reads, are zeros here.
abbrev pub taken : List ℕ
taken = replicate msg_max 0

-- `tmp[len++] = '\n'`
unfoldable pub answer : List ℕ
answer = let len = length (c_str taken) in take (len + 1) (set taken len b'\n')

unfoldable pub q_read : Kernel → Handler QueueState
q_read k c s =
    let sent = take c.count answer in
    if k.copy_to_user c.ubuf sent
    then (s, record { ret = Ret.count (min (length answer) c.count); copied = sent; pos = c.pos })
    else (s, fail efault c)

abbrev pub fops : Kernel → FileOps QueueState
fops k = record {
  read = some (q_read k);
  write = some (q_write k);
  open_file = none;
  release = none;
  poll = none;
}

abbrev pub cppq : Kernel → MiscDevice QueueState
cppq k = record { name = "cppq"; fops = fops k; mode = some 0o666 }

unfoldable pub q_init : (k : Kernel) → k.World → Loaded k.World
q_init k w = misc_init k (cppq k) w

unfoldable pub q_exit : (k : Kernel) → k.World → k.World
q_exit k w = misc_exit k (cppq k) w
