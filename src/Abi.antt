-- ===== src/Abi.antt =====
-- Layout and byte order: content/exercises/el1/03-abi-struct/starter.c and the structures and
-- `container_of` of content/exercises/f1/06-struct-layout/starter.c. The byte order of the host is a parameter, and the
-- layout is that of the ABI that both files describe: each member at the next multiple of its
-- alignment, the whole a multiple of the largest.
pub mod ByteOrder
mod Tests
use cppcourse.Base.{
  ℕ, ◌+◌, ◌-◌, ◌*◌, ◌/◌, ◌%◌, ◌^◌, List, [], ◌∷◌, Option, none, some, get_or, ltb, if◌then◌else◌,
}
use cppcourse.Base.Int.{ℤ, pos, negsuc}
use Prim.Native.Nat.{max}

pub data Endian : Type 0 where
  little big : Endian

-- The bytes of a number in memory, from the lowest address on.
abbrev pub bytes32 : Endian → ℕ → List ℕ
bytes32 little x = x % 256 ∷ x / 2 ^ 8 % 256 ∷ x / 2 ^ 16 % 256 ∷ x / 2 ^ 24 % 256 ∷ []
bytes32 big x = x / 2 ^ 24 % 256 ∷ x / 2 ^ 16 % 256 ∷ x / 2 ^ 8 % 256 ∷ x % 256 ∷ []

abbrev pub bytes16 : Endian → ℕ → List ℕ
bytes16 little x = x % 256 ∷ x / 2 ^ 8 % 256 ∷ []
bytes16 big x = x / 2 ^ 8 % 256 ∷ x % 256 ∷ []

-- The number whose object has these bytes.
abbrev pub load32 : Endian → ℕ → ℕ → ℕ → ℕ → ℕ
load32 little b0 b1 b2 b3 = b0 + 2 ^ 8 * b1 + 2 ^ 16 * b2 + 2 ^ 24 * b3
load32 big b0 b1 b2 b3 = 2 ^ 24 * b0 + 2 ^ 16 * b1 + 2 ^ 8 * b2 + b3

abbrev pub load16 : Endian → ℕ → ℕ → ℕ
load16 little b0 b1 = b0 + 2 ^ 8 * b1
load16 big b0 b1 = 2 ^ 8 * b0 + b1

-- The bytes are written in the order b[0], …, b[3] and copied into a `uint32_t`.
unfoldable pub u32_to_be : Endian → ℕ → ℕ
u32_to_be e x = load32 e (x / 2 ^ 24 % 256) (x / 2 ^ 16 % 256) (x / 2 ^ 8 % 256) (x % 256)

unfoldable pub u16_to_be : Endian → ℕ → ℕ
u16_to_be e x = load16 e (x / 2 ^ 8 % 256) (x % 256)

-- A member by its size and its alignment.
pub record Member : Type 0 where
  pub size : ℕ
  pub align : ℕ

abbrev pub char_type : Member
char_type = record { size = 1; align = 1 }

abbrev pub short_type : Member
short_type = record { size = 2; align = 2 }

abbrev pub int_type : Member
int_type = record { size = 4; align = 4 }

abbrev pub double_type : Member
double_type = record { size = 8; align = 8 }

-- The next multiple of `a` from `n` on.
abbrev pub align_up : ℕ → ℕ → ℕ
align_up n a = (n + a - 1) / a * a

-- The offsets of the members that follow at `n`.
abbrev pub offsets : List Member → ℕ → List ℕ
offsets [] n = []
offsets (m ∷ ms) n = align_up n m.align ∷ offsets ms (align_up n m.align + m.size)

abbrev pub end_of : List Member → ℕ → ℕ
end_of [] n = n
end_of (m ∷ ms) n = end_of ms (align_up n m.align + m.size)

abbrev pub align_of : List Member → ℕ
align_of [] = 1
align_of (m ∷ ms) = max m.align (align_of ms)

abbrev pub size_of : List Member → ℕ
size_of ms = align_up (end_of ms 0) (align_of ms)

-- With the attribute `packed` every alignment is 1.
abbrev pub packed : List Member → List Member
packed [] = []
packed (m ∷ ms) = record { size = m.size; align = 1 } ∷ packed ms

-- magic, length, version, checksum, type
abbrev pub proto_header : List Member
proto_header = char_type ∷ int_type ∷ char_type ∷ short_type ∷ char_type ∷ []

abbrev pub proto_header_packed : List Member
proto_header_packed = packed proto_header

abbrev pub nth_offset : List ℕ → ℕ → ℕ
nth_offset xs i = get_or xs i 0

unfoldable pub header_size : ℕ
header_size = size_of proto_header

unfoldable pub header_packed_size : ℕ
header_packed_size = size_of proto_header_packed

unfoldable pub length_offset : ℕ
length_offset = nth_offset (offsets proto_header 0) 1

unfoldable pub length_offset_packed : ℕ
length_offset_packed = nth_offset (offsets proto_header_packed 0) 1

-- `struct proto_header` by its values.
pub record Header : Type 0 where
  pub magic : ℕ
  pub length : ℕ
  pub version : ℕ
  pub checksum : ℕ
  pub type_code : ℕ

-- The buffer and the header are left as they are.
unfoldable pub serialize_header : Header → List ℕ → List ℕ × ℤ
serialize_header h buf = (buf, pos 0)

unfoldable pub deserialize_header : List ℕ → Header → Header × ℤ
deserialize_header buf h = (h, negsuc 0)

-- a, b, c, d, e
abbrev pub bad_layout : List Member
bad_layout = char_type ∷ int_type ∷ char_type ∷ double_type ∷ short_type ∷ []

-- a, c, e, b, d
abbrev pub good_layout : List Member
good_layout = char_type ∷ char_type ∷ short_type ∷ int_type ∷ double_type ∷ []

unfoldable pub bad_layout_size : ℕ
bad_layout_size = size_of bad_layout

unfoldable pub good_layout_size : ℕ
good_layout_size = size_of good_layout

unfoldable pub bad_b_offset : ℕ
bad_b_offset = nth_offset (offsets bad_layout 0) 1

unfoldable pub good_d_offset : ℕ
good_d_offset = nth_offset (offsets good_layout 0) 4

-- `container_of`: the object whose member at that offset the pointer points to. A result before address 0
-- is `none`.
abbrev pub container_of : ℕ → ℕ → Option ℕ
container_of ptr offset = if ltb ptr offset then none else some (ptr - offset)

abbrev pub pointer_type : Member
pointer_type = record { size = 8; align = 8 }

-- value, next
abbrev pub list_node : List Member
list_node = int_type ∷ pointer_type ∷ []

-- A member of type `struct node`.
abbrev pub node_type : Member
node_type = record { size = size_of list_node; align = align_of list_node }

-- name, node, priority
abbrev pub list_item : List Member
list_item = record { size = 16; align = 1 } ∷ node_type ∷ int_type ∷ []

-- As it stands.
unfoldable pub item_from_node : ℕ → Option ℕ
item_from_node n = none
