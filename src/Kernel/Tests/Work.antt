-- ===== src/Kernel/Tests/Work.antt =====
-- A read of the module with delayed work in the small kernel.
use cppcourse.Base.{◌≡◌, refl, true}
use cppcourse.Base.Text.{c_str, print_ℤ, decimal, digits}
use cppcourse.Kernel.Api.{count}
use cppcourse.Kernel.Device.{Call}
use cppcourse.Kernel.Tests.{small_kernel}
use cppcourse.Kernel.Delayed.{initial, dw_read, dw_text}

abbrev look : Call
look = record { ubuf = 3; count = 10; pos = 0; memory = true }

dw_read_returns : (dw_read (small_kernel 1) look initial).1.ret ≡ count 8
unfolding dw_read dw_text c_str print_ℤ decimal digits
dw_read_returns = refl
