-- ===== src/Abi/ByteOrder.antt =====
-- The conversions to network order.
use cppcourse.Base.{ℕ, ◌^◌, ◌<◌, ◌≡◌, arith}
use cppcourse.Abi.{Endian, little, big, bytes32, bytes16, u32_to_be, u16_to_be}

-- On either kind of host, what `u32_to_be` returns has the bytes of its argument in memory with the
-- highest first.
pub bytes32-u32_to_be : (e : Endian) (x : ℕ) → bytes32 e (u32_to_be e x) ≡ bytes32 big x
unfolding u32_to_be
bytes32-u32_to_be little x = ground arith
bytes32-u32_to_be big x = ground arith

-- On either kind of host, converting a `uint32_t` twice gives it back.
pub u32_to_be-u32_to_be : (e : Endian) (x : ℕ) → x < 2 ^ 32 → u32_to_be e (u32_to_be e x) ≡ x
unfolding u32_to_be
u32_to_be-u32_to_be little x h = omega arith
u32_to_be-u32_to_be big x h = omega arith

-- On either kind of host, what `u16_to_be` returns has the bytes of its argument in memory with the
-- higher first, and converting a `uint16_t` twice gives it back.
pub u16_to_be_lem :
    (e : Endian) (x : ℕ)
    → x < 2 ^ 16
    → (bytes16 e (u16_to_be e x) ≡ bytes16 big x) × (u16_to_be e (u16_to_be e x) ≡ x)
unfolding u16_to_be
u16_to_be_lem little x h = (ground arith, omega arith)
u16_to_be_lem big x h = (ground arith, omega arith)

-- On either kind of host, what `u32_to_be` returns for a `uint32_t` has the bytes of its argument in memory
-- with the highest first, and converting it twice gives it back.
pub u32_to_be_lem :
    (e : Endian) (x : ℕ)
    → x < 2 ^ 32
    → (bytes32 e (u32_to_be e x) ≡ bytes32 big x) × (u32_to_be e (u32_to_be e x) ≡ x)
u32_to_be_lem e x h = (bytes32-u32_to_be e x, u32_to_be-u32_to_be e x h)
