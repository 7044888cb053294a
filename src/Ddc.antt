-- ===== src/Ddc.antt =====
-- The search of the firmware for the physical address in an EDID (src/ddc.c). The transfers are
-- parameters. A read outside of the 256 bytes ends the run with `fault`.
pub mod Laws
use cec_controller.Common.{
  ℕ, zero, suc, ◌+◌, ◌*◌, ◌%◌, Bool, true, false, not, ◌&&◌, ◌||◌, List, [], ◌∷◌, Option, none,
  some, leb, ltb, ◌==◌, if◌then◌else◌, u8, u16, bit_or, length, get_or, get_elem?,
}

abbrev pub block_size : ℕ
block_size = 128

abbrev pub read_size : ℕ
read_size = 256

-- The sum of the bytes in 16 bits.
unfoldable pub sum_from : ℕ → List ℕ → ℕ
sum_from cksum [] = cksum
sum_from cksum (b ∷ bytes) = sum_from (u16 (cksum + b)) bytes

-- `verify`, true for PICO_ERROR_NONE.
unfoldable pub verify : List ℕ → Bool
unfolding sum_from
verify edid = sum_from 0 edid % 256 == 0

-- What i2c_read_timeout_us gives: its result, and the bytes that it stores.
abbrev pub checked_block : List ℕ → Option (List ℕ)
checked_block bytes = if verify bytes then some bytes else none

unfoldable pub read_edid_block : ℕ × List ℕ → Option (List ℕ)
unfolding verify
read_edid_block (ret, bytes) = if not (ret == read_size) then none else checked_block bytes

-- An address that is found, 0 for none, or a read outside of the array. `endless` is a loop that has
-- not ended within its fuel.
pub data Search : Type 0 where
  address : ℕ → Search
  fault endless : Search

-- memcmp of the bytes from `at` on, which stops at the first difference.
unfoldable pub same_at : List ℕ → ℕ → List ℕ → Option Bool
same_at edid at [] = some true
same_at edid at (c ∷ cs) =
    let rest = same_at edid (at + 1) cs in
    elim (get_elem? edid at) [ none ↦ none | some b ↦ if b == c then rest else some false ]

abbrev vsbhdr : List ℕ
vsbhdr = 0x03 ∷ 0x0c ∷ 0x00 ∷ []

-- `(block[4] << 8) | block[3]`.
abbrev pub address_at : Option ℕ → Option ℕ → Search
address_at (some low) (some high) = Search.address (u16 (bit_or (high * 256) low))
address_at _ _ = Search.fault

unfoldable pub find_physical_address : List ℕ → ℕ → ℕ → Search
unfolding same_at
find_physical_address edid block len =
    if ltb len 4 then Search.address 0 else elim (same_at edid (block + 1) vsbhdr) [
      | none ↦ Search.fault
      | some false ↦ Search.address 0
      | some true ↦ address_at (get_elem? edid (block + 3)) (get_elem? edid (block + 4))
    ]

-- What is found, or else what the rest of the loop finds.
abbrev pub or_else : Search → Search → Search
or_else Search.fault rest = Search.fault
or_else Search.endless rest = Search.endless
or_else (Search.address a) rest = if a == 0 then rest else Search.address a

-- The loop over the data blocks, with `i` in 8 bits.
unfoldable pub data_blocks : ℕ → List ℕ → ℕ → ℕ → Search
unfolding find_physical_address
data_blocks zero edid dtd_start i = Search.endless
data_blocks (suc fuel) edid dtd_start i =
    if leb dtd_start i then Search.address 0 else elim (get_elem? edid (block_size + i)) [
      | none ↦ Search.fault
      | some db ↦
          let len = db % 32 in
          let next = data_blocks fuel edid dtd_start (u8 (i + 1)) in
          let rest = data_blocks fuel edid dtd_start (u8 (i + len + 1)) in
          if len == 0 then next else or_else (find_physical_address edid (block_size + i) len) rest
    ]

abbrev pub edid_header : List ℕ
edid_header = 0x00 ∷ 0xff ∷ 0xff ∷ 0xff ∷ 0xff ∷ 0xff ∷ 0xff ∷ 0x00 ∷ []

abbrev pub ctahdr : List ℕ
ctahdr = 0x02 ∷ 0x03 ∷ []

abbrev pub with_match : Option Bool → Search → Search
with_match none found = Search.fault
with_match (some false) found = Search.address 0
with_match (some true) found = found

-- The extension, where the blocks are searched.
unfoldable pub search_extension : List ℕ → Search
unfolding data_blocks same_at
search_extension edid =
    with_match (same_at edid block_size ctahdr)
      (data_blocks 256 edid (get_or edid (block_size + 2) 0) 4)

-- The part behind the transfer, for the bytes of the array.
unfoldable pub search_edid : List ℕ → Search
unfolding search_extension same_at
search_edid edid =
    with_match (same_at edid 0 edid_header)
      (if get_or edid 126 0 == 0 then Search.address 0 else search_extension edid)

unfoldable pub get_physical_address : ℕ × List ℕ → Search
unfolding search_edid read_edid_block
get_physical_address transfer = elim (read_edid_block transfer) [
  | none ↦ Search.address 0
  | some edid ↦ search_edid edid
]

-- `reset` is the result of i2c_write_timeout_us.
unfoldable pub ddc_get_physical_address : ℕ → ℕ × List ℕ → Search
unfolding get_physical_address
ddc_get_physical_address reset transfer =
    if not (reset == 1) then Search.address 0 else get_physical_address transfer
