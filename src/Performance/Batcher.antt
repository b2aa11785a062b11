-- ===== src/Performance/Batcher.antt =====
-- content/exercises/c6/04-batch-coalesce/starter.cpp: operations sent in batches, as it stands.
use cppcourse.Base.Int.{ℤ, pos, ltb_ℤ}
use cppcourse.Base.{if◌then◌else◌}

-- `struct Batcher`
pub record Batcher : Type 0 where
  pub batch_size : ℤ
  pub pending : ℤ
  pub syscalls : ℤ
  pub total : ℤ

unfoldable pub batch_create : ℤ → Batcher
batch_create batch_size = record {
  batch_size = if ltb_ℤ (pos 0) batch_size then batch_size else pos 1;
  pending = pos 0;
  syscalls = pos 0;
  total = pos 0;
}

unfoldable pub batch_push : Batcher → ℤ → Batcher
batch_push b op = b

unfoldable pub batch_flush : Batcher → Batcher
batch_flush b = b

unfoldable pub batch_syscalls : Batcher → ℤ
batch_syscalls b = b.syscalls

unfoldable pub batch_total_ops : Batcher → ℤ
batch_total_ops b = b.total

unfoldable pub batch_pending : Batcher → ℤ
batch_pending b = b.pending
