-- ===== src/Signals.antt =====
-- content/exercises/f2/07-signal-handler/starter.c as it stands before it is solved.
use cppcourse.Base.{ℕ}
use cppcourse.Base.Int.{ℤ, pos, negsuc}

-- `g_shutdown` and `g_counter`.
pub record Flags : Type 0 where
  pub g_shutdown : ℤ
  pub g_counter : ℤ

abbrev pub initial : Flags
initial = record { g_shutdown = pos 0; g_counter = pos 0 }

unfoldable pub shutdown_handler : ℕ → Flags → Flags
shutdown_handler sig s = s

unfoldable pub counter_handler : ℕ → Flags → Flags
counter_handler sig s = s

-- No handler is installed.
unfoldable pub setup_handlers : Flags → Flags × ℤ
setup_handlers s = (s, negsuc 0)

unfoldable pub get_shutdown : Flags → ℤ
get_shutdown s = s.g_shutdown

unfoldable pub get_counter : Flags → ℤ
get_counter s = s.g_counter

unfoldable pub reset_flags : Flags → Flags
reset_flags s = record { g_shutdown = pos 0; g_counter = pos 0 }
