-- ===== src/Abi/Tests.antt =====
-- The sizes and offsets that the sources state, and runs of the conversions.
use cppcourse.Base.{◌+◌, none, some, ◌≡◌, refl}
use cppcourse.Abi.{
  header_size, header_packed_size, length_offset, length_offset_packed, bad_layout_size,
  good_layout_size, bad_b_offset, good_d_offset, size_of, nth_offset, offsets, list_item,
  container_of, item_from_node,
}

header_test :
    (header_size ≡ 16) × (header_packed_size ≡ 9) × (length_offset ≡ 4) × (length_offset_packed ≡ 1)
unfolding header_size header_packed_size length_offset length_offset_packed
header_test = (refl, refl, refl, refl)

layout_test :
    (bad_layout_size ≡ 32) × (good_layout_size ≡ 16) × (bad_b_offset ≡ 4) × (good_d_offset ≡ 8)
unfolding bad_layout_size good_layout_size bad_b_offset good_d_offset
layout_test = (refl, refl, refl, refl)

item_layout : (size_of list_item ≡ 40) × (nth_offset (offsets list_item 0) 1 ≡ 16)
item_layout = (refl, refl)

item_found : container_of (0x5000 + nth_offset (offsets list_item 0) 1) 16 ≡ some 0x5000
item_found = refl

item_not_returned : item_from_node (0x5000 + 16) ≡ none
unfolding item_from_node
item_not_returned = refl
