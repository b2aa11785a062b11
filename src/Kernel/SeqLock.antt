-- ===== src/Kernel/SeqLock.antt =====
-- content/exercises/k2/06-seqlock-pair/starter.c: a pair of values under a seqlock.
use cppcourse.Base.{none, some, ◌++◌}
use cppcourse.Base.Int.{ℤ, pos}
use cppcourse.Base.Text.{codes, print_ℤ}
use cppcourse.Kernel.Api.{Kernel}
use cppcourse.Kernel.Device.{
  Handler, FileOps, MiscDevice, Loaded, fail, accept, misc_init, misc_exit,
}
use cppcourse.Kernel.Number.{bad, number, read_number}

-- `val_a` and `val_b`.
pub record PairState : Type 0 where
  pub val_a : ℤ
  pub val_b : ℤ

unfoldable pub seq_write : Kernel → Handler PairState
seq_write k c s = elim (read_number k c) [
  | bad e ↦ (s, fail e c)
  | number n ↦ (s, accept c.count c)
]

unfoldable pub seq_read : Kernel → Handler PairState
seq_read k c s =
    let a = pos 0 in
    let b = pos 0 in
    let tmp = k.scnprintf 32 (print_ℤ a ++ codes " " ++ print_ℤ b ++ codes "\n") in
    (s, k.simple_read_from_buffer c.ubuf c.count c.pos tmp)

abbrev pub fops : Kernel → FileOps PairState
fops k = record {
  read = some (seq_read k);
  write = some (seq_write k);
  open_file = none;
  release = none;
  poll = none;
}

abbrev pub cppseq : Kernel → MiscDevice PairState
cppseq k = record { name = "cppseq"; fops = fops k; mode = some 0o666 }

unfoldable pub seq_init : (k : Kernel) → k.World → Loaded k.World
seq_init k w = misc_init k (cppseq k) w

unfoldable pub seq_exit : (k : Kernel) → k.World → k.World
seq_exit k w = misc_exit k (cppseq k) w
