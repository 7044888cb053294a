-- ===== src/Tests/Storage.antt =====
-- The stored configuration with a sum for a checksum, and the search of an EDID.
use cec_controller.Common.{
  ℕ, ◌+◌, ◌≡◌, ◌≢◌, refl, true, List, [], ◌∷◌, ◌++◌, get_or, replicate, arith,
}
use cec_controller.Config.{cec_config_set_default, cec_config_valid}
use cec_controller.Stored.{Nvs, nvs_read_config, nvs_load_config, nvs_save_config}
use cec_controller.Stored.Laws.{nvs_read-nvs_save, nvs_load_config-valid}
use cec_controller.Ddc.{Search, ddc_get_physical_address}
use cec_controller.Ddc.Laws.{Rounded, ddc_get_physical_address-IsRounded}

abbrev sum : List ℕ → ℕ
sum [] = 7
sum (b ∷ bytes) = b + sum bytes

abbrev erased : Nvs
erased = record {
  header = record { version = 0xff; length = 0xffffffff };
  header_crc = 0xffffffff;
  config = record cec_config_set_default { edid_delay_ms = 0xffffffff };
  config_crc = 0xffffffff;
}

nvs_read-nvs_save_example :
    nvs_read_config sum (nvs_save_config sum 256 4096 true cec_config_set_default erased).1
    ≡ (true, cec_config_set_default)
unfolding nvs_save_config cec_config_valid cec_config_set_default
nvs_read-nvs_save_example = nvs_read-nvs_save sum 256 4096 true cec_config_set_default erased refl

nvs_load_config-valid_example :
    (cec_config_valid (nvs_load_config sum erased) ≡ true)
    × (get_or (nvs_load_config sum erased).osd_name 0 0 ≢ 0)
nvs_load_config-valid_example = nvs_load_config-valid sum erased

-- An EDID with the address 3.1.2.0 in its vendor block.
abbrev edid : List ℕ
edid =
    (0 ∷ 255 ∷ 255 ∷ 255 ∷ 255 ∷ 255 ∷ 255 ∷ 0 ∷ [])
    ++ (replicate 118 0
        ++ ((1 ∷ 0 ∷ 2 ∷ 3 ∷ 10 ∷ 0 ∷ 0x65 ∷ 3 ∷ 0x0c ∷ 0 ∷ 0x31 ∷ 0x20 ∷ [])
            ++ (replicate 117 0 ++ (49 ∷ []))))

ddc_get_physical_address-IsRounded_example : Rounded (ddc_get_physical_address 1 (256, edid))
ddc_get_physical_address-IsRounded_example =
    ddc_get_physical_address-IsRounded 1 256 edid (omega arith)

-- The second byte of the address is lost.
edid_address : ddc_get_physical_address 1 (256, edid) ≡ Search.address 0x3100
unfolding ddc_get_physical_address
edid_address = refl
