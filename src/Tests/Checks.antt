-- ===== src/Tests/Checks.antt =====
-- The checks of addresses, messages and times at single values.
use cec_controller.Common.{◌+◌, ◌/◌, ◌%◌, ◌<◌, ◌≡◌, ◌↔◌, true, ◌⊎◌, arith, u32}
use cec_controller.Message.{header0, header0_parts}
use cec_controller.Validate.{cec_physical_address_valid, nibble}
use cec_controller.Validate.Laws.{IsInput, cec_physical_address_valid-IsInput}
use cec_controller.Health.{cec_health_fresh, cec_health_fresh_iff}

cec_physical_address_valid-IsInput_example :
    (cec_physical_address_valid 0x3100 ≡ true)
    ↔ IsInput (nibble 0x3100 12) (nibble 0x3100 8) (nibble 0x3100 4) (nibble 0x3100 0)
cec_physical_address_valid-IsInput_example = cec_physical_address_valid-IsInput 0x3100 (omega arith)

-- A clock that has gone round since the two tasks reported.
cec_health_fresh_iff_example :
    (cec_health_fresh (u32 4294967390) (u32 100) (u32 4294967000) (u32 4294966000) ≡ true) ↔ (
      (4294967390 < 100 + 10000)
      ⊎ ((4294967390 < 4294967000 + 3000) × (4294967390 < 4294966000 + 3000)))
cec_health_fresh_iff_example =
    cec_health_fresh_iff 4294967390 100 4294967000 4294966000 (omega arith) (omega arith)
      (omega arith) (omega arith) (omega arith) (omega arith)

header0_parts_example : (header0 4 15 / 16 ≡ 4) × (header0 4 15 % 16 ≡ 15)
header0_parts_example = header0_parts 4 15 (omega arith) (omega arith)
