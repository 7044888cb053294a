-- ===== src/Config.antt =====
-- The configuration record and its checks (src/cec-config.c, include/cec-config.h).
use cec_controller.Common.{
  ℕ, ◌≡◌, refl, Bool, true, false, not, ◌&&◌, ◌||◌, List, [], ◌∷◌, leb, ltb, ◌==◌, if◌then◌else◌,
  replicate,
}
use cec_controller.Validate.{cec_physical_address_valid}

abbrev pub osd_name_max_len : ℕ
osd_name_max_len = 14

-- cec_config_device_type_t.
abbrev pub device_type_tv : ℕ
device_type_tv = 0

abbrev pub device_type_recording : ℕ
device_type_recording = 1

abbrev pub device_type_reserved : ℕ
device_type_reserved = 2

abbrev pub device_type_playback : ℕ
device_type_playback = 4

abbrev pub device_type_audio_system : ℕ
device_type_audio_system = 5

-- cec_config_t. `osd_name` holds the 15 characters of the array.
pub record Config : Type 0 where
  pub edid_delay_ms : ℕ
  pub physical_address : ℕ
  pub logical_address : ℕ
  pub device_type : ℕ
  pub osd_name : List ℕ

-- The build without DDC, whose default delay is 0.
unfoldable pub cec_config_set_default : Config
cec_config_set_default = record {
  edid_delay_ms = 0;
  physical_address = 0;
  logical_address = 15;
  device_type = device_type_playback;
  osd_name = replicate 15 0;
}

-- isprint of the C locale.
abbrev pub is_print : ℕ → Bool
is_print c = leb 32 c && leb c 126

-- memchr for the terminator, and the loop up to it: a NUL is there and all before it is printable.
unfoldable pub printable_text : List ℕ → Bool
printable_text [] = false
printable_text (c ∷ cs) =
    let rest = printable_text cs in if c == 0 then true else is_print c && rest

unfoldable pub cec_config_valid : Config → Bool
unfolding printable_text
cec_config_valid c =
    not (
      ltb 30000 c.edid_delay_ms
      || ltb 15 c.logical_address
      || c.device_type == device_type_reserved
      || c.device_type == device_type_tv
      || ltb device_type_audio_system c.device_type
      || (not (c.physical_address == 0) && not (cec_physical_address_valid c.physical_address)))
    && printable_text c.osd_name

-- The default configuration passes the check.
pub set_default-valid : cec_config_valid cec_config_set_default ≡ true
unfolding cec_config_valid cec_config_set_default
set_default-valid = refl
