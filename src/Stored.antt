-- ===== src/Stored.antt =====
-- The stored configuration (src/nvs.c). The checksum is a parameter, and so are the room in the
-- flash and the size of the record there.
pub mod Laws
use cec_controller.Common.{
  ℕ, ◌+◌, ◌/◌, ◌%◌, Bool, true, false, not, ◌&&◌, ◌||◌, List, [], ◌∷◌, ◌++◌, ltb, ◌==◌,
  if◌then◌else◌, get_or, pad, codes,
}
use cec_controller.Config.{
  Config, osd_name_max_len, device_type_tv, device_type_playback, cec_config_set_default,
  cec_config_valid,
}

-- cec_config_header_nvs_t and cec_config_nvs_t, with their sizes.
pub record Header : Type 0 where
  pub version : ℕ
  pub length : ℕ

abbrev pub config_size : ℕ
config_size = 23

-- pico_cec_nvs_t. The fields of cec_config_nvs_t are those of Config.
pub record Nvs : Type 0 where
  pub header : Header
  pub header_crc : ℕ
  pub config : Config
  pub config_crc : ℕ

abbrev pub config_version : ℕ
config_version = 4

-- The bytes of the packed records, in little-endian order.
abbrev bytes2 : ℕ → List ℕ
bytes2 n = n % 256 ∷ n / 256 % 256 ∷ []

abbrev bytes4 : ℕ → List ℕ
bytes4 n = n % 256 ∷ n / 256 % 256 ∷ n / 65536 % 256 ∷ n / 16777216 % 256 ∷ []

unfoldable pub header_bytes : Header → List ℕ
header_bytes h = h.version % 256 ∷ bytes4 h.length

unfoldable pub config_bytes : Config → List ℕ
config_bytes c =
    bytes4 c.edid_delay_ms
    ++ (bytes2 c.physical_address ++ (c.logical_address % 256 ∷ c.device_type % 256 ∷ c.osd_name))

-- CEC_OSD_NAME, and strncpy of it into the array.
abbrev pub default_name : List ℕ
default_name = pad 15 0 (codes "Pico-CEC")

-- The device type of a television is taken for a playback device.
abbrev loaded_type : ℕ → ℕ
loaded_type type = if type == device_type_tv then device_type_playback else type

module _ (crc32 : List ℕ → ℕ) where
  -- The result, and what the function leaves in `config`.
  unfoldable pub load_config : Nvs → Config → Bool × Config
  unfolding config_bytes
  load_config nvs config =
      let stored = record (nvs.config) { device_type = loaded_type nvs.config.device_type } in
      if not (nvs.header.length == config_size)
        || not (crc32 (config_bytes nvs.config) == nvs.config_crc)
      then (false, config)
      else (cec_config_valid stored, stored)

  unfoldable pub nvs_read_config : Nvs → Bool × Config
  unfolding load_config header_bytes
  nvs_read_config nvs =
      let loaded = load_config nvs cec_config_set_default in
      if not (crc32 (header_bytes nvs.header) == nvs.header_crc)
        || not (nvs.header.version == config_version)
      then (false, cec_config_set_default)
      else if not loaded.0
      then (false, cec_config_set_default)
      else (true, loaded.1)

  unfoldable pub nvs_load_config : Nvs → Config
  unfolding nvs_read_config
  nvs_load_config nvs =
      let c = (nvs_read_config nvs).1 in
      if get_or c.osd_name 0 0 == 0 then record c { osd_name = default_name } else c

  -- The record that is programmed for a configuration.
  unfoldable pub nvs_of : Config → Nvs
  unfolding header_bytes config_bytes
  nvs_of config =
      let header : Header = record { version = config_version; length = config_size } in
      record {
        header = header;
        header_crc = crc32 (header_bytes header);
        config = config;
        config_crc = crc32 (config_bytes config);
      }

  -- The result with what the flash holds then. `idle` is cec_frame_idle behind the lock, `size` the
  -- size of the record, and `room` the length of the region.
  unfoldable pub nvs_save_config : ℕ → ℕ → Bool → Config → Nvs → Bool × Nvs
  unfolding nvs_of
  nvs_save_config size room idle config flash =
      if not (cec_config_valid config) || ltb room size
      then (false, flash)
      else if not idle
      then (false, flash)
      else (true, nvs_of config)
