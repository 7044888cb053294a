-- ===== src/Control/Names.antt =====
-- The names of results and of power states in replies.
use cec_controller.Common.{ℕ, ◌==◌, if◌then◌else◌, Text, codes}
use cec_controller.Control.{Code, Phase}

unfoldable pub cec_control_result_name : Code → Text
cec_control_result_name Code.ok = codes "ok"
cec_control_result_name Code.invalid_physical_address = codes "invalid_physical_address"
cec_control_result_name Code.no_ack = codes "no_ack"
cec_control_result_name Code.tx_timeout = codes "tx_timeout"
cec_control_result_name Code.response_timeout = codes "response_timeout"
cec_control_result_name Code.transition_timeout = codes "transition_timeout"
cec_control_result_name Code.unsupported = codes "unsupported_feedback"
cec_control_result_name Code.input_unconfirmed = codes "input_unconfirmed"
cec_control_result_name Code.unavailable = codes "unavailable"

unfoldable pub cec_control_power_name : ℕ → Text
cec_control_power_name status =
    if status == 0
    then codes "on"
    else if status == 1
    then codes "standby"
    else if status == 2
    then codes "transitioning_on"
    else if status == 3
    then codes "transitioning_standby"
    else codes "unknown"

-- The strings that `phase` points to.
unfoldable pub phase_name : Phase → Text
phase_name Phase.ready = codes "ready"
phase_name Phase.power = codes "power"
phase_name Phase.activate = codes "activate"
phase_name Phase.status = codes "status"
