-- ===== src/Host/Edid.antt =====
-- The search for the physical address in an EDID (host/src/edid.c). The bytes behind the pointer are a
-- list, and a read outside of it ends the run with `none`.
pub mod Safety
use cec_controller.Common.{
  ℕ, zero, suc, ◌+◌, ◌-◌, ◌*◌, ◌/◌, ◌%◌, ◌<◌, ◌≤◌, ◌≡◌, refl, Bool, true, false, not, ◌&&◌, ◌||◌,
  List, [], ◌∷◌, Option, none, some, leb, ltb, ◌==◌, if◌then◌else◌, length, get_or, arith, u8, u16,
  min, bit_or, Returns,
}
use cec_controller.Validate.{cec_physical_address_valid}

abbrev pub block_size : ℕ
block_size = 128

-- A read, and what is done with the byte.
unfoldable pub read : {A : Type 0} → List ℕ → ℕ → (ℕ → Option A) → Option A
read [] i k = none
read (b ∷ bytes) zero k = k b
read (b ∷ bytes) (suc i) k = read bytes i k

-- The loop of checksum_valid over `n` more bytes from `i` on, and what is done with its result.
unfoldable pub checksum : {A : Type 0} → List ℕ → ℕ → ℕ → ℕ → (Bool → Option A) → Option A
unfolding read
checksum edid zero i sum k = k (sum == 0)
checksum edid (suc n) i sum k = read edid i (λ b. checksum edid n (i + 1) (u8 (sum + b)) k)

-- memcmp with the header.
unfoldable pub same_bytes : {A : Type 0} → List ℕ → ℕ → List ℕ → (Bool → Option A) → Option A
unfolding read
same_bytes edid i [] k = k true
same_bytes edid i (c ∷ cs) k =
    read edid i (λ b. if b == c then same_bytes edid (i + 1) cs k else k false)

-- A vendor block: the identifier of HDMI and an address, which is kept if it is valid.
unfoldable pub vendor_block : {A : Type 0} → List ℕ → ℕ → (Option ℕ → Option A) → Option A
unfolding same_bytes
vendor_block edid at k = same_bytes edid at (0x03 ∷ 0x0c ∷ 0x00 ∷ []) (λ hdmi.
    if hdmi
    then read edid (at + 3) (λ high. read edid (at + 4) (λ low.
      let value = u16 (bit_or (high * 256) low) in
      k (if cec_physical_address_valid value then some value else none)))
    else k none)

-- What is found, or else the rest of the search.
abbrev pub or_next : Option ℕ → Option (Option ℕ) → Option (Option ℕ)
or_next none next = next
or_next (some value) next = some (some value)

abbrev pub first_of : Option (Option ℕ) → Option (Option ℕ) → Option (Option ℕ)
first_of none rest = none
first_of (some found) rest = or_next found rest

-- The loop over the data blocks of an extension; `base` is the offset of the extension.
unfoldable pub data_blocks : List ℕ → ℕ → ℕ → ℕ → ℕ → Option (Option ℕ)
unfolding vendor_block
data_blocks edid base data_end zero offset = none
data_blocks edid base data_end (suc fuel) offset =
    let body = read edid (base + offset) (λ block_header.
      let payload_length = block_header % 32 in
      let next = data_blocks edid base data_end fuel (offset + 1 + payload_length) in
      let found = vendor_block edid (base + (offset + 1)) (λ r. or_next r next) in
      if ltb data_end (offset + 1 + payload_length)
      then some none
      else if block_header / 32 == 3 && leb 5 payload_length
      then found
      else next) in
    if ltb offset data_end then body else some none

-- One extension.
unfoldable pub extension_address : List ℕ → ℕ → Option (Option ℕ)
unfolding checksum data_blocks
extension_address edid base = read edid base (λ tag.
    if not (tag == 2)
    then some none
    else checksum edid 128 base 0 (λ good.
      if not good
      then some none
      else read edid (base + 2) (λ end_byte.
        let data_end = if end_byte == 0 then 127 else end_byte in
        if ltb data_end 4 || ltb 127 data_end
        then some none
        else data_blocks edid base data_end 128 4)))

-- The loop over the extensions, `count` more of them.
unfoldable pub extensions : List ℕ → ℕ → ℕ → Option (Option ℕ)
unfolding extension_address
extensions edid zero base = some none
extensions edid (suc count) base =
    let rest = extensions edid count (base + block_size) in
    first_of (extension_address edid base) rest

-- The outer option is a fault, the inner one the result -1.
unfoldable pub cecctl_edid_physical_address : List ℕ → Option (Option ℕ)
unfolding extensions
cecctl_edid_physical_address edid =
    if ltb (length edid) block_size
    then some none
    else same_bytes edid 0 (0x00 ∷ 0xff ∷ 0xff ∷ 0xff ∷ 0xff ∷ 0xff ∷ 0xff ∷ 0x00 ∷ []) (λ known.
      if not known
      then some none
      else checksum edid 128 0 0 (λ good.
        if not good
        then some none
        else read edid 126
            (λ count. extensions edid (min count (length edid / block_size - 1)) block_size)))
