-- ===== src/CecId.antt =====
-- The CEC opcodes that the firmware knows (include/cec-id.h), and the abort and menu operands.
use cec_controller.Common.{ℕ, ◌≡◌, refl, Option, none, some, ◌==◌, if◌then◌else◌}

-- enum cec_id_t.
pub data CecId : Type 0 where
  feature_abort image_view_on text_view_on standby user_control_pressed user_control_released :
      CecId
  give_osd_name set_osd_name system_audio_mode_request give_audio_status set_system_audio_mode :
      CecId
  give_system_audio_mode_status system_audio_mode_status report_audio_status routing_change : CecId
  routing_information active_source give_physical_address report_physical_address : CecId
  request_active_source set_stream_path device_vendor_id give_device_vendor_id menu_status : CecId
  menu_request give_device_power_status report_power_status get_menu_language inactive_source :
      CecId
  cec_version get_cec_version vendor_command_with_id request_arc_initiation abort : CecId

-- The value of an enumerator, the byte on the wire.
unfoldable pub opcode_of : CecId → ℕ
opcode_of feature_abort = 0x00
opcode_of image_view_on = 0x04
opcode_of text_view_on = 0x0d
opcode_of standby = 0x36
opcode_of user_control_pressed = 0x44
opcode_of user_control_released = 0x45
opcode_of give_osd_name = 0x46
opcode_of set_osd_name = 0x47
opcode_of system_audio_mode_request = 0x70
opcode_of give_audio_status = 0x71
opcode_of set_system_audio_mode = 0x72
opcode_of give_system_audio_mode_status = 0x7d
opcode_of system_audio_mode_status = 0x7e
opcode_of report_audio_status = 0x7a
opcode_of routing_change = 0x80
opcode_of routing_information = 0x81
opcode_of active_source = 0x82
opcode_of give_physical_address = 0x83
opcode_of report_physical_address = 0x84
opcode_of request_active_source = 0x85
opcode_of set_stream_path = 0x86
opcode_of device_vendor_id = 0x87
opcode_of give_device_vendor_id = 0x8c
opcode_of menu_status = 0x8e
opcode_of menu_request = 0x8d
opcode_of give_device_power_status = 0x8f
opcode_of report_power_status = 0x90
opcode_of get_menu_language = 0x91
opcode_of inactive_source = 0x9d
opcode_of cec_version = 0x9e
opcode_of get_cec_version = 0x9f
opcode_of vendor_command_with_id = 0xa0
opcode_of request_arc_initiation = 0xc3
opcode_of abort = 0xff

-- The enumerator with a given value: what a `switch` over an opcode byte selects. `none` is `default`.
unfoldable pub cec_id : ℕ → Option CecId
cec_id n =
    if n == 0x00
    then some feature_abort
    else if n == 0x04
    then some image_view_on
    else if n == 0x0d
    then some text_view_on
    else if n == 0x36
    then some standby
    else if n == 0x44
    then some user_control_pressed
    else if n == 0x45
    then some user_control_released
    else if n == 0x46
    then some give_osd_name
    else if n == 0x47
    then some set_osd_name
    else if n == 0x70
    then some system_audio_mode_request
    else if n == 0x71
    then some give_audio_status
    else if n == 0x72
    then some set_system_audio_mode
    else if n == 0x7d
    then some give_system_audio_mode_status
    else if n == 0x7e
    then some system_audio_mode_status
    else if n == 0x7a
    then some report_audio_status
    else if n == 0x80
    then some routing_change
    else if n == 0x81
    then some routing_information
    else if n == 0x82
    then some active_source
    else if n == 0x83
    then some give_physical_address
    else if n == 0x84
    then some report_physical_address
    else if n == 0x85
    then some request_active_source
    else if n == 0x86
    then some set_stream_path
    else if n == 0x87
    then some device_vendor_id
    else if n == 0x8c
    then some give_device_vendor_id
    else if n == 0x8e
    then some menu_status
    else if n == 0x8d
    then some menu_request
    else if n == 0x8f
    then some give_device_power_status
    else if n == 0x90
    then some report_power_status
    else if n == 0x91
    then some get_menu_language
    else if n == 0x9d
    then some inactive_source
    else if n == 0x9e
    then some cec_version
    else if n == 0x9f
    then some get_cec_version
    else if n == 0xa0
    then some vendor_command_with_id
    else if n == 0xc3
    then some request_arc_initiation
    else if n == 0xff
    then some abort
    else none

-- Decoding an enumerator's own byte gives the enumerator.
pub cec_id-opcode_of : (id : CecId) → cec_id (opcode_of id) ≡ some id
unfolding cec_id opcode_of
cec_id-opcode_of feature_abort = refl
cec_id-opcode_of _ = refl
