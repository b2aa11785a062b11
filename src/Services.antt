-- ===== src/Services.antt =====
-- content/exercises/c5: socket activation (01-listen-fds), notifications (02-sd-notify), the
-- watchdog (03-watchdog) and the drain (04-drain-tracker), as they stand. A string is its bytes, and
-- NULL is `none`.
use cppcourse.Base.{ℕ, Bool, false, List, Option}
use cppcourse.Base.Int.{ℤ, pos, negsuc}

abbrev pub sd_listen_fds_start : ℕ
sd_listen_fds_start = 3

unfoldable pub my_listen_fds : ℤ → Option (List ℕ) → Option (List ℕ) → ℤ
my_listen_fds my_pid listen_pid listen_fds = negsuc 0

unfoldable pub my_listen_fd_by_name :
    ℤ → Option (List ℕ) → Option (List ℕ) → Option (List ℕ) → List ℕ → ℤ
my_listen_fd_by_name my_pid listen_pid listen_fds listen_fdnames name = negsuc 0

-- With what `buf` holds afterwards.
unfoldable pub notify_ready : List ℕ → ℤ → Option (List ℕ) → List ℕ × ℤ
notify_ready buf cap status = (buf, negsuc 0)

unfoldable pub notify_reloading : List ℕ → ℤ → ℕ → List ℕ × ℤ
notify_reloading buf cap mono_usec = (buf, negsuc 0)

unfoldable pub notify_stopping : List ℕ → ℤ → List ℕ × ℤ
notify_stopping buf cap = (buf, negsuc 0)

unfoldable pub notify_watchdog : List ℕ → ℤ → List ℕ × ℤ
notify_watchdog buf cap = (buf, negsuc 0)

pub record Wd : Type 0 where
  pub enabled : Bool
  pub interval : ℕ
  pub last : ℕ
  pub pinged : Bool

unfoldable pub wd_create : ℤ → Option (List ℕ) → Option (List ℕ) → Wd
wd_create my_pid watchdog_usec watchdog_pid = record {
  enabled = false;
  interval = 0;
  last = 0;
  pinged = false;
}

unfoldable pub wd_enabled : Wd → ℤ
wd_enabled w = negsuc 0

unfoldable pub wd_interval_usec : Wd → ℕ
wd_interval_usec w = 0

unfoldable pub wd_should_ping : Wd → ℕ → Wd × ℤ
wd_should_ping w now_usec = (w, negsuc 0)

pub record Drain : Type 0 where
  pub state : ℤ
  pub active : ℤ

unfoldable pub drain_create : Drain
drain_create = record { state = pos 0; active = pos 0 }

unfoldable pub admit : Drain → Drain × ℤ
admit d = (d, negsuc 0)

unfoldable pub finish : Drain → Drain
finish d = d

unfoldable pub begin_shutdown : Drain → Drain
begin_shutdown d = d

unfoldable pub timeout : Drain → Drain
timeout d = d

unfoldable pub drain_admit : Drain → Drain × ℤ
drain_admit d = admit d

unfoldable pub drain_finish : Drain → Drain
drain_finish d = finish d

unfoldable pub drain_begin_shutdown : Drain → Drain
drain_begin_shutdown d = begin_shutdown d

unfoldable pub drain_timeout : Drain → Drain
drain_timeout d = timeout d

unfoldable pub drain_state : Drain → ℤ
drain_state d = d.state

unfoldable pub drain_active : Drain → ℤ
drain_active d = d.active
