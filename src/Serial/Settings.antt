-- ===== src/Serial/Settings.antt =====
-- The commands that read or change the configuration (src/usb-cdc.c: exec_set, exec_save,
-- show_config, exec_show for the configuration, exec_debug, exec_reboot). A result is true for 0 and
-- false for -1.
pub mod Laws
use cec_controller.Common.{
  ℕ, zero, suc, ◌+◌, ◌-◌, Bool, true, false, not, ◌&&◌, ◌||◌, List, [], ◌∷◌, ◌++◌, Option, none,
  some, leb, ltb, ◌==◌, if◌then◌else◌, u16, min, length, get_or, drop, replicate, Text, codes,
  same_text, hex_number, decimal_number, hex_text, decimal_text,
}
use cec_controller.Validate.{cec_physical_address_valid}
use cec_controller.Config.{
  Config, osd_name_max_len, device_type_playback, device_type_recording, cec_config_valid,
}
use cec_controller.Task.{Task, cec_apply_config}
use cec_controller.Serial.{Serial, cdc_printfln}

abbrev pub busy_text : Text
busy_text = codes "Controller busy; wait for the active operation."

-- `%-17s: ` with a text behind it.
abbrev pub labelled : Text → Text → Text
labelled label text = label ++ (replicate (17 - length label) 32 ++ (codes ": " ++ text))

-- What `%s` prints of an array: the characters up to the terminator.
unfoldable pub c_string : List ℕ → Text
c_string [] = []
c_string (c ∷ cs) = let rest = c_string cs in if c == 0 then [] else c ∷ rest

unfoldable pub type_name : ℕ → Text
type_name type =
    if type == 0
    then codes "TV"
    else if type == 1
    then codes "recording"
    else if type == 2
    then codes "reserved"
    else if type == 3
    then codes "tuner"
    else if type == 4
    then codes "playback"
    else if type == 5
    then codes "audio"
    else codes "unknown"

unfoldable pub config_lines : Config → List Text
unfolding c_string type_name
config_lines c =
    labelled (codes "EDID delay") (decimal_text c.edid_delay_ms ++ codes " ms")
    ∷ labelled (codes "Physical address") (codes "0x" ++ hex_text 4 c.physical_address)
    ∷ labelled (codes "Logical address") (codes "0x" ++ hex_text 2 c.logical_address)
    ∷ labelled (codes "Device type") (type_name c.device_type)
    ∷ labelled (codes "OSD name") (c_string c.osd_name)
    ∷ []

-- One cdc_printfln after the other.
unfoldable pub print_lines : List Text → Serial → Serial
unfolding cdc_printfln
print_lines [] p = p
print_lines (line ∷ lines) p = print_lines lines (cdc_printfln line p)

unfoldable pub show_config : Config → Serial → Serial
unfolding config_lines print_lines
show_config c p = print_lines (config_lines c) p

-- snprintf into the array `osd_name`: the text with its terminator, and what stood behind.
abbrev pub write_name : Text → List ℕ → List ℕ
write_name text old = text ++ (0 ∷ drop (suc (length text)) old)

abbrev signed : Text → Bool
signed value = get_or value 0 0 == 45 || get_or value 0 0 == 43

-- strtoul where unsigned long has 32 bits.
abbrev saturated : Option ℕ → Option ℕ
saturated none = none
saturated (some n) = some (min n 4294967295)

-- A value of a numeric key: the text is not empty, and all of it is digits of the base.
unfoldable pub parse_value : Bool → Text → Option ℕ
unfolding hex_number decimal_number
parse_value decimal value =
    if length value == 0 || signed value
    then none
    else saturated (if decimal then decimal_number 0 value else hex_number 0 value)

abbrev set_type : ℕ → Config → Config
set_type type c = record c { device_type = type; logical_address = 15 }

unfoldable pub set_number : Text → Text → Option ℕ → Config → Option Config
set_number key value none c = none
set_number key value (some n) c =
    if same_text key (codes "edid_delay_ms")
    then if ltb 30000 n then none else some (record c { edid_delay_ms = n })
    else if same_text key (codes "physical_address")
    then if not (length value == 4) || not (cec_physical_address_valid (u16 n))
      then none
      else some (record c { physical_address = u16 n })
    else if same_text key (codes "logical_address")
    then if ltb 2 (length value) || ltb 15 n || n == 0
      then none
      else some (record c { logical_address = n })
    else none

-- The candidate that exec_set builds, or `none` for an early return.
unfoldable pub candidate : Text → Text → Config → Option Config
unfolding parse_value set_number
candidate key value c =
    if same_text key (codes "osd_name")
    then if ltb osd_name_max_len (length value)
      then none
      else some (record c { osd_name = write_name value c.osd_name })
    else if same_text key (codes "device_type")
    then if same_text value (codes "playback")
      then some (set_type device_type_playback c)
      else if same_text value (codes "recording")
      then some (set_type device_type_recording c)
      else none
    else set_number key value (parse_value (same_text key (codes "edid_delay_ms")) value) c

-- The end of exec_set: the check, the store, and the display.
unfoldable pub use_candidate : Option Config → Serial → Task → Bool × Serial × Task
unfolding cec_apply_config show_config
use_candidate none p t = (false, p, t)
use_candidate (some c) p t =
    if not (cec_config_valid c)
    then (false, p, t)
    else (true, show_config c (record p { config = c }), cec_apply_config c t)

-- exec_set, on the variables of the serial port and of the CEC task.
unfoldable pub exec_set : List Text → Serial → Task → Bool × Serial × Task
unfolding candidate use_candidate
exec_set argv p t =
    if p.operation_busy
    then (false, cdc_printfln busy_text p, t)
    else if not (length argv == 4) || not (same_text (get_or argv 1 []) (codes "config"))
    then (false, p, t)
    else use_candidate (candidate (get_or argv 2 []) (get_or argv 3 []) p.config) p t

-- exec_save: `idle` is cec_frame_idle, and `save` is nvs_save_config with the flash as its state.
unfoldable pub exec_save :
    {F : Type 0} → Bool → (Config → F → Bool × F) → Serial → F → Bool × Serial × F
exec_save idle save p f =
    if p.operation_busy
    then (false, cdc_printfln busy_text p, f)
    else if not idle
    then (false, cdc_printfln (codes "CEC bus busy; retry save when idle.") p, f)
    else let r = save p.config f in (r.0, p, r.1)

-- exec_debug, with cec_log_enable and cec_log_disable as the flag of the log.
unfoldable pub exec_debug : List Text → Serial → Bool × Serial
exec_debug argv p =
    if not (length argv == 2)
    then (false, p)
    else if same_text (get_or argv 1 []) (codes "on")
    then (true, record p { debug_enabled = true })
    else if same_text (get_or argv 1 []) (codes "off")
    then (true, record p { debug_enabled = false })
    else (false, p)

-- What exec_reboot asks of the platform.
pub data Reboot : Type 0 where
  stay boot_loader normal : Reboot

unfoldable pub exec_reboot : List Text → Serial → Reboot × Serial
exec_reboot argv p =
    if p.operation_busy
    then (Reboot.stay, cdc_printfln busy_text p)
    else if length argv == 2 && same_text (get_or argv 1 []) (codes "bootsel")
    then (Reboot.boot_loader, p)
    else (Reboot.normal, p)
