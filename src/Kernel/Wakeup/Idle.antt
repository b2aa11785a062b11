-- ===== src/Kernel/Wakeup/Idle.antt =====
-- What the wake-up module returns over a sequence of calls: nothing queues the work.
use cppcourse.Base.{◌≡◌, refl, ◌∙◌, arith, min, inl, inr, Option-cases, List, [], ◌∷◌}
use cppcourse.Base.{if◌then◌else◌, Bool-cases}
use cppcourse.Kernel.Api.{Kernel, Ret, efault}
use cppcourse.Kernel.Device.{Call, fail}
use cppcourse.Kernel.Delayed.{clamp}
use cppcourse.Kernel.Wakeup.{WakeState, initial, wake_write, wake_read, wake_poll}

-- A call on the device file.
pub data Request : Type 0 where
  write read : Call → Request
  poll : Request

unfoldable pub serve : Kernel → List Request → WakeState → WakeState
serve k [] s = s
serve k (write c ∷ requests) s = serve k requests (wake_write k c s).0
serve k (read c ∷ requests) s = serve k requests (wake_read k c s).0
serve k (poll ∷ requests) s = serve k requests (wake_poll s).0

module _ (k : Kernel) where
  wake_write-same : (c : Call) (s : WakeState) → (wake_write k c s).0.res_len ≡ s.res_len
  unfolding wake_write
  wake_write-same c s = elim (Option-cases (k.copy_from_user c.ubuf (clamp c.count))) [
    | inl e ↦ rw (e, wake_write) refl
    | inr (bytes, e) ↦ rw (e, wake_write) refl
  ]

  wake_read-same : (c : Call) (s : WakeState) → (wake_read k c s).0.res_len ≡ s.res_len
  unfolding wake_read
  wake_read-same c s = ground arith

  serve-same : (requests : List Request) (s : WakeState) → (serve k requests s).res_len ≡ s.res_len
  unfolding serve wake_poll
  serve-same [] s = refl
  serve-same (write c ∷ requests) s = serve-same requests (wake_write k c s).0 ∙ wake_write-same c s
  serve-same (read c ∷ requests) s = serve-same requests (wake_read k c s).0 ∙ wake_read-same c s
  serve-same (poll ∷ requests) s = serve-same requests s

  nothing_ready :
      (c : Call) (s : WakeState)
      → s.res_len ≡ 0
      → (wake_read k c s).1 ≡ (
          if k.copy_to_user c.ubuf []
          then record { ret = Ret.count 0; copied = []; pos = c.pos }
          else fail efault c)
  unfolding wake_read
  nothing_ready c s e =
      let zero_length : min c.count s.res_len ≡ 0 = omega arith in
      elim (Bool-cases (k.copy_to_user c.ubuf [])) [
        | inl sent ↦ rw (zero_length, sent, wake_read) refl
        | inr lost ↦ rw (zero_length, lost, wake_read) refl
      ]

  -- From the initial state on, whatever calls come, a read returns 0 at once with nothing copied, or
  -- EFAULT, whatever was written: it does not wait, and the work never runs.
  pub wake_read-serve :
      (requests : List Request) (c : Call)
      → (wake_read k c (serve k requests initial)).1 ≡ (
          if k.copy_to_user c.ubuf []
          then record { ret = Ret.count 0; copied = []; pos = c.pos }
          else fail efault c)
  wake_read-serve requests c =
      nothing_ready c (serve k requests initial) (serve-same requests initial)
