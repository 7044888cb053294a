-- ===== src/Tests/Host.antt =====
-- Addresses as text, and an EDID of two blocks that names input 1.0.0.0.
use cec_controller.Common.{ℕ, ◌≡◌, refl, some, List, [], ◌∷◌, ◌++◌, replicate, arith, Returns}
use cec_controller.Validate.{cec_physical_address_valid}
use cec_controller.Host.Address.{
  cecctl_parse_physical_address, cecctl_format_physical_address, cecctl_parse-cecctl_format,
}
use cec_controller.Host.Edid.{
  cecctl_edid_physical_address, read, checksum, same_bytes, vendor_block, data_blocks,
  extension_address, extensions,
}
use cec_controller.Host.Edid.Safety.{IsFound, cecctl_edid_physical_address-IsFound}

cecctl_parse-cecctl_format_example :
    cecctl_parse_physical_address (cecctl_format_physical_address 0x3100) ≡ some 0x3100
unfolding cec_physical_address_valid
cecctl_parse-cecctl_format_example = cecctl_parse-cecctl_format 0x3100 (omega arith) refl

abbrev edid : List ℕ
edid =
    (0x00 ∷ 0xff ∷ 0xff ∷ 0xff ∷ 0xff ∷ 0xff ∷ 0xff ∷ 0x00 ∷ [])
    ++ replicate 118 0
    ++ (1 ∷ 5 ∷ 2 ∷ 3 ∷ 10 ∷ 0 ∷ 0x65 ∷ 0x03 ∷ 0x0c ∷ 0x00 ∷ 0x10 ∷ 0x00 ∷ [])
    ++ replicate 117 0
    ++ (109 ∷ [])

edid_address : cecctl_edid_physical_address edid ≡ some (some 0x1000)
unfolding cecctl_edid_physical_address read checksum same_bytes vendor_block data_blocks
    extension_address extensions cec_physical_address_valid
edid_address = refl

cecctl_edid_physical_address-IsFound_example : Returns IsFound (cecctl_edid_physical_address edid)
cecctl_edid_physical_address-IsFound_example = cecctl_edid_physical_address-IsFound edid
