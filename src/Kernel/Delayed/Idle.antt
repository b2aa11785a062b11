-- ===== src/Kernel/Delayed/Idle.antt =====
-- What the delayed work module shows over a sequence of calls: nothing schedules the work.
use cppcourse.Base.{
  some, ◌<◌, ◌≤◌, take_all, ℕ, ◌≡◌, refl, ◌∙◌, ap, arith, inl, inr, Option-cases, List, [], ◌∷◌,
  take, drop, length, length-replicate,
}
use cppcourse.Base.Int.{pos}
use cppcourse.Base.Text.{codes, c_str, print_ℤ, decimal, digits}
use cppcourse.Kernel.Api.{Kernel, IsKernel, count}
use cppcourse.Kernel.Device.{Call}
use cppcourse.Kernel.Client.{cat, HasRoom, Shows, cat_lem}
use cppcourse.Kernel.Delayed.{WorkState, initial, dw_write, dw_read, dw_text, clamp}
use cppcourse.Kernel.Delayed.Fits.{IsValid, dw_write-IsValid, dw_read_lem}

-- A call on the device file.
pub data Request : Type 0 where
  write read : Call → Request

unfoldable pub serve : Kernel → List Request → WorkState → WorkState
serve k [] s = s
serve k (write c ∷ requests) s = serve k requests (dw_write k c s).0
serve k (read c ∷ requests) s = serve k requests (dw_read k c s).0

-- A valid state in which the work has not run.
pub record Idle (s : WorkState) : Type 0 where
  pub valid : IsValid s
  pub empty : s.res_len ≡ 0
  pub no_runs : s.runs ≡ pos 0

pub initial-IsValid : IsValid initial
initial-IsValid = record {
  in_size = length-replicate {A = ℕ} 1024 0;
  in_fits = omega arith;
  res_size = length-replicate {A = ℕ} 1024 0;
  res_fits = omega arith;
  runs_int = refl;
}

module _ (k : Kernel) (ok : IsKernel k) where
  dw_write-Idle : (c : Call) (s : WorkState) → Idle s → Idle (dw_write k c s).0
  unfolding dw_write
  dw_write-Idle c s i =
      let results : ((dw_write k c s).0.res_len ≡ s.res_len) × ((dw_write k c s).0.runs ≡ s.runs) =
        elim (Option-cases (k.copy_from_user c.ubuf (clamp c.count))) [
          | inl e ↦ rw (e, dw_write) (refl, refl)
          | inr (bytes, e) ↦ rw (e, dw_write) (refl, refl)
        ] in
      record {
        valid = dw_write-IsValid k ok c s i.valid;
        empty = results.0 ∙ i.empty;
        no_runs = results.1 ∙ i.no_runs;
      }

  serve-Idle : (requests : List Request) (s : WorkState) → Idle s → Idle (serve k requests s)
  unfolding serve dw_read
  serve-Idle [] s i = i
  serve-Idle (write c ∷ requests) s i = serve-Idle requests (dw_write k c s).0 (dw_write-Idle c s i)
  serve-Idle (read c ∷ requests) s i = serve-Idle requests s i

  dw_text-Idle : (s : WorkState) → Idle s → dw_text s ≡ codes " runs=0\n"
  unfolding dw_text c_str print_ℤ decimal digits
  dw_text-Idle s i = rw (i.empty, i.no_runs) refl

  -- From the initial state on, whatever reads and writes come, a successful read copies from the file
  -- position on the line " runs=0", whatever was written: the work never runs.
  pub dw_read-serve :
      (requests : List Request) (c : Call) (n : ℕ)
      → (dw_read k c (serve k requests initial)).1.ret ≡ count n
      → ((dw_read k c (serve k requests initial)).1.copied
          ≡ take n (drop c.pos (codes " runs=0\n")))
        × (n ≤ length (take c.count (drop c.pos (codes " runs=0\n"))))
  dw_read-serve requests c n h =
      let s = serve k requests initial in
      let idle =
        serve-Idle requests initial
          (record { valid = initial-IsValid; empty = refl; no_runs = refl }) in
      let shown = dw_read_lem k ok c s n idle.valid h in
      let text = dw_text-Idle s idle in
      (shown.1 ∙ ap (λ (t : List ℕ). take n (drop c.pos t)) text, rw (← text) shown.2)

  dw_read-Shows : (s : WorkState) → Idle s → Shows k (dw_read k) s (codes " runs=0\n")
  unfolding dw_read
  dw_read-Shows s i c memory =
      let line = codes " runs=0\n" in
      let whole : k.scnprintf 1056 line ≡ line =
        ok.scnprintf_lem 1056 line (omega arith) ∙ take_all 1055 line (omega arith) in
      rw (dw_text-Idle s i, whole) refl

  -- From the initial state on, whatever reads and writes come, a client that then reads the device in
  -- pieces of any one size but 0, with room for each piece, reaches a read that returns 0 and has by then
  -- the line " runs=0", whatever was written: the work never runs.
  pub cat-dw_read :
      (requests : List Request) (ubuf n : ℕ)
      → HasRoom k ubuf n
      → 0 < n
      → cat (dw_read k) ubuf n 9 (serve k requests initial) 0 ≡ some (codes " runs=0\n")
  cat-dw_read requests ubuf n room some_room =
      let idle =
        serve-Idle requests initial
          (record { valid = initial-IsValid; empty = refl; no_runs = refl }) in
      cat_lem k ok (dw_read k) _ _ ubuf n 9 (dw_read-Shows _ idle) room some_room (omega arith)
