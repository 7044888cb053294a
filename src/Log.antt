-- ===== src/Log.antt =====
-- The log of the firmware (src/cec-log.c): the lines that it queues for its task, and the line for a
-- frame. The message buffer is no code of the repository: what it does with a line is a parameter.
pub mod Laws
use cec_controller.Common.{
  ℕ, zero, suc, ◌+◌, ◌-◌, ◌*◌, Bool, true, false, not, ◌&&◌, ◌||◌, List, [], ◌∷◌, ◌++◌, Option,
  none, some, leb, ltb, ◌==◌, if◌then◌else◌, length, take, replicate, get_or, Text, codes, hex_text,
  decimal_onto, ◌>>=◌,
}
use cec_controller.CecId.{CecId, cec_id}
use cec_controller.Message.{Message, opcode}
use cec_controller.Validate.{cec_message_valid}

-- `enabled`, and what is in the message buffer.
pub record Log : Type 0 where
  pub enabled : Bool
  pub queue : List Text

abbrev pub cec_log_init : Log
cec_log_init = record { enabled = false; queue = [] }

abbrev pub cec_log_enable : Log → Log
cec_log_enable log = record log { enabled = true }

abbrev pub cec_log_disable : Log → Log
cec_log_disable log = record log { enabled = false }

-- The array of the names.
unfoldable pub cec_message : CecId → Text
cec_message CecId.feature_abort = codes "Feature Abort"
cec_message CecId.image_view_on = codes "Image View On"
cec_message CecId.text_view_on = codes "Text View On"
cec_message CecId.standby = codes "Standby"
cec_message CecId.user_control_pressed = codes "User Control Pressed"
cec_message CecId.user_control_released = codes "User Control Released"
cec_message CecId.give_osd_name = codes "Give OSD Name"
cec_message CecId.set_osd_name = codes "Set OSD Name"
cec_message CecId.system_audio_mode_request = codes "System Audio Mode Request"
cec_message CecId.give_audio_status = codes "Give Audio Status"
cec_message CecId.set_system_audio_mode = codes "Set System Audio Mode"
cec_message CecId.give_system_audio_mode_status = codes "Give System Audio Mode"
cec_message CecId.system_audio_mode_status = codes "System Audio Mode Status"
cec_message CecId.report_audio_status = codes "Report Audio Status"
cec_message CecId.routing_change = codes "Routing Change"
cec_message CecId.routing_information = codes "Routing Information"
cec_message CecId.active_source = codes "Active Source"
cec_message CecId.give_physical_address = codes "Give Physical Address"
cec_message CecId.report_physical_address = codes "Report Physical Address"
cec_message CecId.request_active_source = codes "Request Active Source"
cec_message CecId.set_stream_path = codes "Set Stream Path"
cec_message CecId.device_vendor_id = codes "Device Vendor ID"
cec_message CecId.give_device_vendor_id = codes "Give Device Vendor ID"
cec_message CecId.menu_status = codes "Menu Status"
cec_message CecId.menu_request = codes "Menu Request"
cec_message CecId.give_device_power_status = codes "Give Device Power Status"
cec_message CecId.report_power_status = codes "Report Power Status"
cec_message CecId.get_menu_language = codes "Get Menu Language"
cec_message CecId.inactive_source = codes "Inactive Source"
cec_message CecId.cec_version = codes "CEC Version"
cec_message CecId.get_cec_version = codes "Get CEC Version"
cec_message CecId.vendor_command_with_id = codes "Vendor Command With ID"
cec_message CecId.request_arc_initiation = codes "Request ARC Initiation"
cec_message CecId.abort = codes "Abort"

-- A line that does not fit in 128 characters, with its end, is dropped. `send` is
-- xMessageBufferSend.
unfoldable pub cec_log_vsubmitf : (Text → List Text → List Text) → Text → Log → Log
cec_log_vsubmitf send text log =
    if log.enabled && ltb (length text) 128 then record log { queue = send text log.queue } else log

-- snprintf behind the first `used` characters of `raw`; `none` is a write outside of it.
abbrev pub raw_size : ℕ
raw_size = 49

unfoldable pub print_at : ℕ → Text → Text → Option Text
print_at used piece raw =
    if leb used raw_size then some (raw ++ take (raw_size - used - 1) piece) else none

unfoldable pub byte_text : ℕ → ℕ → Text
byte_text zero b = hex_text 2 b
byte_text (suc i) b = 58 ∷ hex_text 2 b

-- The loop over the bytes, with `count` of them left, from number i on.
unfoldable pub raw_from : Message → ℕ → ℕ → ℕ → Text → Option Text
unfolding print_at byte_text
raw_from m zero i used raw = some raw
raw_from m (suc count) i used raw = do
  let piece = byte_text i (get_or m.bytes i 0)
  more ← print_at used piece raw
  raw_from m count (i + 1) (used + length piece) more

abbrev pub known_name : Option CecId → Text
known_name none = codes "Unknown opcode"
known_name (some id) = cec_message id

unfoldable pub frame_name : Message → Text
unfolding cec_message
frame_name m = if ltb 1 m.len then known_name (cec_id (opcode m)) else codes "Polling Message"

-- `%10llu`: at least ten characters, for a number of up to twenty digits.
unfoldable pub padded : ℕ → Text
padded n = let digits = decimal_onto 20 n [] in replicate (10 - length digits) 32 ++ digits

unfoldable pub frame_line : ℕ → Bool → Message → Bool → Text → Text
unfolding frame_name padded
frame_line uptime recv m ack raw =
    codes "["
    ++ (padded uptime
        ++ (codes "] "
            ++ ((if recv then codes "RX" else codes "TX")
                ++ (codes " "
                    ++ (raw
                        ++ (codes " "
                            ++ (frame_name m
                                ++ ((if ack then codes " ACK" else []) ++ codes "\r\n"))))))))

-- The result `none` is a write outside of `raw`.
unfoldable pub cec_log_frame :
    (Text → List Text → List Text) → ℕ → Bool → Message → Bool → Log → Option Log
unfolding raw_from frame_line cec_log_vsubmitf cec_message_valid
cec_log_frame send uptime recv m ack log =
    if not log.enabled || not (cec_message_valid m) then some log else (do
      raw ← raw_from m m.len 0 0 []
      some (cec_log_vsubmitf send (frame_line uptime recv m ack raw) log))

-- The turns of the task: the lines that the buffer gives are printed, and a turn without one is not.
unfoldable pub cec_log_task : List (Option Text) → List Text → List Text
cec_log_task [] printed = printed
cec_log_task (none ∷ turns) printed = cec_log_task turns printed
cec_log_task (some line ∷ turns) printed = cec_log_task turns (line ∷ printed)
