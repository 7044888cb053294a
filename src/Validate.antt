-- ===== src/Validate.antt =====
-- The checks on physical addresses and on messages (src/cec-validate.c).
pub mod Laws
use cec_controller.Common.{
  ℕ, ◌/◌, ◌%◌, ◌^◌, List, [], ◌∷◌, Bool, true, false, not, ◌&&◌, ◌||◌, Option, none, some, ◌==◌,
  leb, ltb, if◌then◌else◌,
}
use cec_controller.CecId.{
  CecId, cec_id, routing_change, report_physical_address, device_vendor_id, vendor_command_with_id,
  feature_abort, routing_information, active_source, inactive_source, set_stream_path,
  report_power_status, user_control_pressed, set_system_audio_mode, system_audio_mode_status,
  report_audio_status, menu_request, menu_status, cec_version,
}
use cec_controller.Message.{Message, opcode, frame_max_len}

-- The nibble of an address at a shift.
abbrev pub nibble : ℕ → ℕ → ℕ
nibble address shift = address / 2 ^ shift % 16

-- The loop over the shifts, with the flag `zero`.
nibbles_valid : ℕ → List ℕ → Bool → Bool
nibbles_valid address [] zero = true
nibbles_valid address (shift ∷ shifts) zero =
    if zero && not (nibble address shift == 0)
    then false
    else nibbles_valid address shifts (if nibble address shift == 0 then true else zero)

unfoldable pub cec_physical_address_valid : ℕ → Bool
unfolding nibbles_valid
cec_physical_address_valid address =
    if address == 0 || address == 0xffff
    then false
    else nibbles_valid address (12 ∷ 8 ∷ 4 ∷ 0 ∷ []) false

-- The `switch` of cec_message_valid: the shortest length of each opcode.
unfoldable pub minimum : Option CecId → ℕ
minimum (some routing_change) = 6
minimum (some report_physical_address) = 5
minimum (some device_vendor_id) = 5
minimum (some vendor_command_with_id) = 5
minimum (some feature_abort) = 4
minimum (some routing_information) = 4
minimum (some active_source) = 4
minimum (some inactive_source) = 4
minimum (some set_stream_path) = 4
minimum (some report_power_status) = 3
minimum (some user_control_pressed) = 3
minimum (some set_system_audio_mode) = 3
minimum (some system_audio_mode_status) = 3
minimum (some report_audio_status) = 3
minimum (some menu_request) = 3
minimum (some menu_status) = 3
minimum (some cec_version) = 3
minimum _ = 2

-- The test for a null pointer has no counterpart: every caller passes the address of an object.
unfoldable pub cec_message_valid : Message → Bool
cec_message_valid m =
    if m.len == 0 || ltb frame_max_len m.len
    then false
    else if m.len == 1
    then true
    else leb (minimum (cec_id (opcode m))) m.len
