-- ===== src/Stored/Laws.antt =====
-- What is stored comes back, and what is loaded passes the checks.
use cec_controller.Common.{
  ℕ, ◌≡◌, ◌≢◌, refl, ap, ◌∙◌, Bool, true, false, not, ◌||◌, List, ltb, ◌==◌, get_or, arith,
  Bool-cases, inl, inr,
}
use cec_controller.Config.{
  Config, cec_config_set_default, cec_config_valid, printable_text, set_default-valid,
}
use cec_controller.Stored.{
  Nvs, config_version, config_size, header_bytes, config_bytes, default_name, loaded_type,
  load_config, nvs_read_config, nvs_load_config, nvs_of, nvs_save_config,
}

valid-type : (c : Config) → cec_config_valid c ≡ true → loaded_type c.device_type ≡ c.device_type
unfolding cec_config_valid
valid-type c h = ground (arith, h)

name-valid :
    (c : Config)
    → cec_config_valid c ≡ true
    → cec_config_valid (record c { osd_name = default_name }) ≡ true
unfolding cec_config_valid printable_text
name-valid c h = ground (arith, h)

same : (n : ℕ) → n == n ≡ true
same n = ground arith

module _ (crc32 : List ℕ → ℕ) where
  saved :
      (size room : ℕ) (idle : Bool) (c : Config) (before : Nvs)
      → (nvs_save_config crc32 size room idle c before).0 ≡ true
      → (cec_config_valid c ≡ true)
        × ((nvs_save_config crc32 size room idle c before).1 ≡ nvs_of crc32 c)
  unfolding nvs_save_config
  saved size room true c before h = elim (Bool-cases (not (cec_config_valid c) || ltb room size)) [
    | inl bad ↦ absurd (ground (arith, h, bad))
    | inr good ↦ (ground (arith, good), rw good refl)
  ]
  saved size room false c before h = absurd (ground (arith, h))

  load-nvs_of :
      (c d : Config) → cec_config_valid c ≡ true → load_config crc32 (nvs_of crc32 c) d ≡ (true, c)
  unfolding load_config nvs_of
  load-nvs_of c d valid = rw (same (crc32 (config_bytes c)), valid-type c valid, valid) refl

  read-nvs_of :
      (c : Config) → cec_config_valid c ≡ true → nvs_read_config crc32 (nvs_of crc32 c) ≡ (true, c)
  unfolding nvs_read_config nvs_of
  read-nvs_of c valid =
      rw
        (
          same (crc32 (header_bytes (record { version = config_version; length = config_size }))),
          load-nvs_of c cec_config_set_default valid,
        )
        refl

  -- For every checksum: a configuration that is saved is the one that is read, whatever the flash held
  -- before.
  pub nvs_read-nvs_save :
      (size room : ℕ) (idle : Bool) (c : Config) (before : Nvs)
      → (nvs_save_config crc32 size room idle c before).0 ≡ true
      → nvs_read_config crc32 (nvs_save_config crc32 size room idle c before).1 ≡ (true, c)
  nvs_read-nvs_save size room idle c before h =
      let done = saved size room idle c before h in
      ap (nvs_read_config crc32) done.1 ∙ read-nvs_of c done.0

  read-valid : (nvs : Nvs) → cec_config_valid (nvs_read_config crc32 nvs).1 ≡ true
  unfolding nvs_read_config load_config
  read-valid nvs = ground (arith, set_default-valid)

  -- Whatever the flash holds, the configuration that is loaded passes the check and has a name.
  pub nvs_load_config-valid :
      (nvs : Nvs)
      → (cec_config_valid (nvs_load_config crc32 nvs) ≡ true)
        × (get_or (nvs_load_config crc32 nvs).osd_name 0 0 ≢ 0)
  unfolding nvs_load_config
  nvs_load_config-valid nvs =
      elim (Bool-cases (get_or (nvs_read_config crc32 nvs).1.osd_name 0 0 == 0)) [
        | inl empty ↦
            rw empty
              (name-valid (nvs_read_config crc32 nvs).1 (read-valid nvs), λ e. omega (arith, e))
        | inr named ↦ rw named (read-valid nvs, ground (arith, named))
      ]
