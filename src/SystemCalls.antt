-- ===== src/SystemCalls.antt =====
-- content/exercises/f2 and content/exercises/c2: the exercises on system calls but for f2/07 and c2/06, as they
-- stand: none of them makes a system call. A buffer or an `out` parameter that a function could write is
-- passed along, and a string is its bytes.
use cppcourse.Base.{ℕ, List, Option, none}
use cppcourse.Base.Int.{ℤ, negsuc}

-- f2/01
unfoldable pub my_write : ℤ → List ℕ → ℕ → ℤ
my_write fd buf n = negsuc 0

unfoldable pub my_read : ℤ → List ℕ → ℕ → List ℕ × ℤ
my_read fd buf n = (buf, negsuc 0)

unfoldable pub my_close : ℤ → ℤ
my_close fd = negsuc 0

unfoldable pub my_getpid : ℤ
my_getpid = negsuc 0

-- f2/02
unfoldable pub write_all : ℤ → List ℕ → ℕ → ℤ
write_all fd buf n = negsuc 0

-- f2/03
unfoldable pub read_full : ℤ → List ℕ → ℕ → List ℕ × ℤ
read_full fd buf n = (buf, negsuc 0)

unfoldable pub write_full : ℤ → List ℕ → ℕ → ℤ
write_full fd buf n = negsuc 0

-- f2/04
unfoldable pub send_to_child : List ℕ → ℤ
send_to_child message = negsuc 0

unfoldable pub capture_command_output : List (List ℕ) → List ℕ → ℕ → List ℕ × ℤ
capture_command_output argv buf bufsz = (buf, negsuc 0)

-- f2/05; the result NULL is `none`.
unfoldable pub mmap_read_file : List ℕ → ℕ → Option (List ℕ) × ℕ
mmap_read_file path size = (none, size)

unfoldable pub mmap_write_file : List ℕ → List ℕ → ℕ → ℤ
mmap_write_file path bytes size = negsuc 0

unfoldable pub mmap_count_char : List ℕ → ℕ → ℤ
mmap_count_char path c = negsuc 0

-- f2/06
pub record DirStats : Type 0 where
  pub file_count : ℤ
  pub dir_count : ℤ
  pub symlink_count : ℤ
  pub total_size : ℤ

unfoldable pub collect_stats : List ℕ → DirStats → DirStats × ℤ
collect_stats path stats = (stats, negsuc 0)

unfoldable pub find_largest_file : List ℕ → List ℕ → ℕ → List ℕ × ℤ
find_largest_file dir_path name_buf buf_size = (name_buf, negsuc 0)

-- c2/01
unfoldable pub set_nonblocking : ℤ → ℤ
set_nonblocking fd = negsuc 0

unfoldable pub write_whole : ℤ → List ℕ → ℕ → ℤ
write_whole fd buf n = negsuc 0

unfoldable pub read_drain : ℤ → List ℕ → List ℕ × ℤ
read_drain fd out = (out, negsuc 0)

-- c2/02 and c2/03
unfoldable pub echo_server : ℤ → ℤ → ℤ
echo_server listen_fd stop_fd = negsuc 0

unfoldable pub echo_server_et : ℤ → ℤ → ℤ
echo_server_et listen_fd stop_fd = negsuc 0

-- c2/04
unfoldable pub wait_n_ticks : ℤ → ℤ → ℤ
wait_n_ticks interval_ms n = negsuc 0

-- c2/05
unfoldable pub ev_post : ℤ → ℕ → ℤ
ev_post efd v = negsuc 0

unfoldable pub ev_wait : ℤ → ℤ → ℕ
ev_wait epfd efd = 0
