-- ===== src/Toolchain.antt =====
-- content/exercises/el1: the byte order exercise 01-endian-detect, as it stands, and the program of
-- 02-cross-hello. The target and its byte order are parameters.
use cppcourse.Base.{ℕ, List, [], ◌++◌, Option, none, some}
use cppcourse.Base.Int.{ℤ, pos, negsuc}
use cppcourse.Base.Text.{codes}
use cppcourse.Abi.{Endian, little, big}

unfoldable pub is_little_endian : ℤ
is_little_endian = negsuc 0

unfoldable pub bswap32 : ℕ → ℕ
bswap32 x = 0

unfoldable pub cpu_to_be32 : ℕ → ℕ
cpu_to_be32 x = 0

unfoldable pub be32_to_cpu : ℕ → ℕ
be32_to_cpu x = 0

-- The first of the macros that the compiler defines.
pub data Target : Type 0 where
  aarch64 arm x86_64 other_target : Target

-- What `puts` writes.
abbrev puts : List ℕ → List ℕ
puts s = s ++ codes "\n"

unfoldable pub arch_line : Target → List ℕ
arch_line aarch64 = codes "Arch: AArch64 (ARM 64-bit)"
arch_line arm = codes "Arch: ARM 32-bit"
arch_line x86_64 = codes "Arch: x86_64 (running via QEMU user-mode?)"
arch_line other_target = codes "Arch: unknown"

-- Nothing is written where the compiler does not define `__BYTE_ORDER__`, or as neither of the two.
unfoldable pub order_lines : Option Endian → List ℕ
order_lines none = []
order_lines (some little) = puts (codes "Byte order: little-endian")
order_lines (some big) = puts (codes "Byte order: big-endian")

-- The output of `main` and its result.
unfoldable pub main : Target → Option Endian → List ℕ × ℤ
main t e = (puts (codes "Hello from AArch64!") ++ (puts (arch_line t) ++ order_lines e), pos 0)
