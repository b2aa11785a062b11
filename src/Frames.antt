-- ===== src/Frames.antt =====
-- The CAN frames of content/exercises/el7/01-socketcan/starter.c, whose functions are not solved yet.
use cppcourse.Base.{ℕ, List, replicate}
use cppcourse.Base.Int.{ℤ, pos, negsuc}

abbrev pub can_max_dlc : ℕ
can_max_dlc = 8

abbrev pub can_sff_mask : ℕ
can_sff_mask = 0x7ff

abbrev pub can_eff_mask : ℕ
can_eff_mask = 0x1fffffff

abbrev pub can_eff_flag : ℕ
can_eff_flag = 0x80000000

abbrev pub can_rtr_flag : ℕ
can_rtr_flag = 0x40000000

abbrev pub can_err_flag : ℕ
can_err_flag = 0x20000000

-- `can_frame_t` without its padding.
pub record CanFrame : Type 0 where
  pub can_id : ℕ
  pub can_dlc : ℕ
  pub payload : List ℕ

-- A frame of zeros.
abbrev pub zero_frame : CanFrame
zero_frame = record { can_id = 0; can_dlc = 0; payload = replicate can_max_dlc 0 }

unfoldable pub make_frame : ℕ → List ℕ → ℕ → CanFrame
make_frame id bytes dlc = zero_frame

unfoldable pub make_frame_ext : ℕ → List ℕ → ℕ → CanFrame
make_frame_ext id bytes dlc = zero_frame

unfoldable pub frame_valid : CanFrame → ℤ
frame_valid f = pos 0

unfoldable pub frame_to_candump : CanFrame → List ℕ → ℕ → List ℕ × ℤ
frame_to_candump f buf bufsz = (buf, negsuc 0)

unfoldable pub candump_to_frame : List ℕ → CanFrame → CanFrame × ℤ
candump_to_frame s f = (f, negsuc 0)

unfoldable pub frame_matches_filter : CanFrame → ℕ → ℕ → ℤ
frame_matches_filter f filter_id mask = pos 0
