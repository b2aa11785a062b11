-- ===== src/Kernel/Delayed/Fits.antt =====
-- The delayed work module keeps to its buffers.
use cppcourse.Base.{ℕ, ◌+◌, ◌≤◌, ◌≡◌, refl, ◌∙◌, arith, true, ◌++◌}
use cppcourse.Base.{
  length, length-append, length-take, length-drop, take, drop, take_all, Option-cases, inl, inr,
}
use cppcourse.Base.Int.{in_int}
use cppcourse.Base.Text.{codes, c_str, print_ℤ, length-print_ℤ, length-c_str}
use cppcourse.Kernel.Api.{Kernel, IsKernel, count}
use cppcourse.Kernel.Device.{Call}
use cppcourse.Kernel.Delayed.{WorkState, buf_size, clamp, dw_write, dw_text, dw_read}

-- The buffers have their size, the lengths lie within them, and `runs` is an `int`.
pub record IsValid (s : WorkState) : Type 0 where
  pub in_size : length s.in_buf ≡ buf_size
  pub in_fits : s.in_len ≤ buf_size
  pub res_size : length s.res_buf ≡ buf_size
  pub res_fits : s.res_len ≤ buf_size
  pub runs_int : in_int s.runs ≡ true

clamp-le : (n : ℕ) → clamp n ≤ buf_size
clamp-le n = ground arith

-- The text of a read is shorter than the array of 1056 bytes that it is printed into.
length-dw_text : (s : WorkState) → IsValid s → length (dw_text s) ≤ 1042
unfolding dw_text
length-dw_text s v =
    let result = c_str (take s.res_len s.res_buf) in
    let label = codes " runs=" in
    let number = print_ℤ s.runs in
    let line = codes "\n" in
    let split : length (dw_text s) ≡ length result + 6 + length number + 1 =
      length-append (result ++ label ++ number) line
      ∙ omega (arith, length-append (result ++ label) number, length-append result label) in
    omega (
      arith,
      split,
      length-print_ℤ s.runs v.runs_int,
      length-c_str (take s.res_len s.res_buf),
      length-take s.res_len s.res_buf,
    )

module _ (k : Kernel) (ok : IsKernel k) where
  -- A write of any length keeps the buffers at their size and the lengths within them.
  pub dw_write-IsValid : (c : Call) (s : WorkState) → IsValid s → IsValid (dw_write k c s).0
  unfolding dw_write
  dw_write-IsValid c s v = elim (Option-cases (k.copy_from_user c.ubuf (clamp c.count))) [
    | inl e ↦
        let residue = k.copied_before_fault c.ubuf (clamp c.count) in
        rw (e, dw_write)
          (record {
            in_size = omega (
              arith,
              length-append residue (drop (length residue) s.in_buf),
              length-drop (length residue) s.in_buf,
              v.in_size,
              clamp-le c.count,
              ok.length-copied_before_fault c.ubuf (clamp c.count),
            );
            in_fits = v.in_fits;
            res_size = v.res_size;
            res_fits = v.res_fits;
            runs_int = v.runs_int;
          })
    | inr (bytes, e) ↦
        let size : length bytes ≡ clamp c.count =
          ok.length-copy_from_user c.ubuf (clamp c.count) bytes e in
        rw (e, dw_write)
          (record {
            in_size = omega (
              arith,
              length-append bytes (drop (length bytes) s.in_buf),
              length-drop (length bytes) s.in_buf,
              v.in_size,
              clamp-le c.count,
              size,
            );
            in_fits = clamp-le c.count;
            res_size = v.res_size;
            res_fits = v.res_fits;
            runs_int = v.runs_int;
          })
  ]

  -- A successful read of a valid state copies from the whole line "<result> runs=<n>", which the
  -- buffer never cuts short, and changes nothing.
  pub dw_read_lem :
      (c : Call) (s : WorkState) (n : ℕ)
      → IsValid s
      → (dw_read k c s).1.ret ≡ count n
      → ((dw_read k c s).0 ≡ s)
        × ((dw_read k c s).1.copied ≡ take n (drop c.pos (dw_text s)))
        × (n ≤ length (take c.count (drop c.pos (dw_text s))))
  unfolding dw_read
  dw_read_lem c s n v h =
      let whole : k.scnprintf 1056 (dw_text s) ≡ dw_text s =
        ok.scnprintf_lem 1056 (dw_text s) (omega arith)
        ∙ take_all 1055 (dw_text s) (omega (arith, length-dw_text s v)) in
      let read = ok.simple_read c.ubuf c.count c.pos (dw_text s) n (rw whole at h) in
      (refl, rw whole read.0, read.1)
