-- ===== src/Task/Dispatch.antt =====
-- The handling of a received message (src/cec-task.c, dispatch_message).
pub mod Invariant
pub mod Routing
use cec_controller.Common.{
  ℕ, zero, suc, ◌+◌, ◌*◌, Bool, true, false, not, ◌&&◌, ◌||◌, List, [], ◌∷◌, Option, none, some,
  leb, ltb, ◌==◌, if◌then◌else◌, bit_or,
}
use cec_controller.CecId.{CecId, opcode_of, cec_id}
use cec_controller.Message.{Message, opcode, operand, initiator_of, destination_of}
use cec_controller.Validate.{cec_physical_address_valid, cec_message_valid}
use cec_controller.Task.{
  Task, Lamp, cec_ready, say, show_lamp, notify_power, feature_abort_message,
  device_vendor_id_message, report_power_status_message, set_system_audio_mode_message,
  report_audio_status_message, system_audio_mode_status_message, set_osd_name_message,
  report_physical_address_message, report_cec_version_message, active_source_message,
  menu_status_message, number_of,
}
use cec_controller.Task.Allocate.{Polls, allocate_logical_address, get_physical_address}

-- What the handler reads from elsewhere: cec_frame_received_at, time_us_64, the address that the
-- display data channel gives, and the answers of the bus to polls.
pub record Arrival : Type 0 where
  pub arrived : ℕ
  pub now : ℕ
  pub ddc : ℕ
  pub polls : Polls

-- cec_abort_t.
abbrev pub abort_unrecognized : ℕ
abort_unrecognized = 0

abbrev pub abort_refused : ℕ
abort_refused = 4

-- The vendor id that is reported.
abbrev pub vendor : ℕ
vendor = 0x0010fa

-- Two operand bytes as a number.
abbrev pub word : ℕ → ℕ → ℕ
word high low = bit_or (high * 256) low

unfoldable pub active_source : ℕ → ℕ → Task → Task
active_source initiator physical p =
    if not p.source_active || not (cec_ready p) || not (cec_physical_address_valid physical)
    then p
    else say (active_source_message initiator physical) p

-- The notification of a task that waits for the power status, whose slot it empties.
abbrev pub notify_waiter : Option ℕ → ℕ → Task → Task
notify_waiter none value p = p
notify_waiter (some client) value p = record p {
  waiter = none;
  notified = (client, notify_power, value) ∷ p.notified;
}

abbrev pub wake_waiter : ℕ → Task → Task
wake_waiter value p = notify_waiter p.waiter value p

-- `arrived >= power_query_since && arrived <= power_query_deadline`.
abbrev pub in_window : ℕ → Task → Bool
in_window arrived p = leb p.power_query_since arrived && leb arrived p.power_query_deadline

-- paddr = get_physical_address(&config); if (!cec_ready()) laddr = allocate_logical_address(&config);
unfoldable pub refresh_address : Arrival → Task → Task
unfolding get_physical_address
refresh_address e p =
    let q = record p { paddr = get_physical_address e.ddc p.config } in
    let allocated = allocate_logical_address e.polls q in
    if cec_ready q then q else record (allocated.1) { laddr = allocated.0 }

-- The head of the case of a routing change.
abbrev pub change_route : Arrival → Message → Task → Task
change_route e m p =
    let target = word (operand m 2) (operand m 3) in
    record p {
      active_addr = target;
      routing_address = if initiator_of m == 0 then target else p.routing_address;
      routing_at = if initiator_of m == 0 then e.arrived else p.routing_at;
      source_active = p.source_active && target == p.paddr;
    }

-- The tail of the case of a routing change.
unfoldable pub answer_route : Task → Task
unfolding active_source
answer_route p = if p.paddr == p.active_addr then active_source p.laddr p.paddr p else p

-- The tail of the case of a reported physical address.
unfoldable pub answer_address : Task → Task
answer_address p =
    if p.paddr == 0
    then p
    else say (report_physical_address_message p.laddr 15 p.paddr p.config.device_type) p

-- The switch over cec_menu_t.
abbrev pub menu_request : ℕ → Bool → Bool
menu_request request state = if request == 0 then true else if request == 1 then false else state

unfoldable pub switch_opcode : Arrival → Option CecId → Message → Task → Task
unfolding active_source refresh_address answer_route answer_address
switch_opcode e (some CecId.standby) m p =
    if destination_of m == p.laddr || destination_of m == 15
    then show_lamp Lamp.blue_2hz (record p { active_addr = 0; source_active = false })
    else p
switch_opcode e (some CecId.system_audio_mode_request) m p =
    if destination_of m == p.laddr
    then say (set_system_audio_mode_message p.laddr (initiator_of m) p.audio_status) p
    else p
switch_opcode e (some CecId.give_audio_status) m p =
    if destination_of m == p.laddr
    then say (report_audio_status_message p.laddr (initiator_of m) 0x32) p
    else p
switch_opcode e (some CecId.set_system_audio_mode) m p =
    if destination_of m == p.laddr || destination_of m == 15
    then record p { audio_status = operand m 0 == 1 }
    else p
switch_opcode e (some CecId.give_system_audio_mode_status) m p =
    if destination_of m == p.laddr
    then say (system_audio_mode_status_message p.laddr (initiator_of m) p.audio_status) p
    else p
switch_opcode e (some CecId.routing_change) m p =
    answer_route (refresh_address e (change_route e m p))
switch_opcode e (some CecId.routing_information) m p =
    let target = word (operand m 0) (operand m 1) in
    if initiator_of m == 0
    then record p {
      routing_address = target;
      routing_at = e.arrived;
      source_active = p.source_active && target == p.paddr;
    }
    else p
switch_opcode e (some CecId.active_source) m p =
    let other = not (initiator_of m == p.laddr) in
    record p {
      source_active = if other then false else p.source_active;
      routing_address = if other then 0xffff else p.routing_address;
      routing_at = if other then 0 else p.routing_at;
      active_addr = word (operand m 0) (operand m 1);
    }
switch_opcode e (some CecId.report_physical_address) m p =
    if initiator_of m == 0 && destination_of m == 15
    then answer_address (refresh_address e p)
    else p
switch_opcode e (some CecId.request_active_source) m p =
    if p.source_active && p.paddr == p.active_addr then active_source p.laddr p.paddr p else p
switch_opcode e (some CecId.set_stream_path) m p =
    if p.source_active && p.paddr == word (operand m 0) (operand m 1)
    then show_lamp Lamp.green_2hz (
        say (menu_status_message p.laddr 0 true)
          (record (active_source p.laddr p.paddr (record p { active_addr = p.paddr })) {
            menu_state = true;
          }))
    else p
switch_opcode e (some CecId.device_vendor_id) m p =
    if initiator_of m == 0 && destination_of m == 15
    then say (device_vendor_id_message p.laddr 15 vendor) p
    else p
switch_opcode e (some CecId.give_device_vendor_id) m p =
    if destination_of m == p.laddr then say (device_vendor_id_message p.laddr 15 vendor) p else p
switch_opcode e (some CecId.menu_request) m p =
    let state = menu_request (operand m 0) p.menu_state in
    if destination_of m == p.laddr
    then say (menu_status_message p.laddr (initiator_of m) state) (record p { menu_state = state })
    else p
switch_opcode e (some CecId.give_device_power_status) m p =
    if destination_of m == p.laddr
    then say
        (report_power_status_message p.laddr (initiator_of m)
          (number_of (not (p.active_addr == p.paddr))))
        p
    else p
switch_opcode e (some CecId.report_power_status) m p =
    if initiator_of m == 0
      && (destination_of m == p.laddr || destination_of m == 15)
      && leb (operand m 0) 3
      && in_window e.arrived p
    then wake_waiter (operand m 0 + 1) p
    else p
switch_opcode e (some CecId.get_cec_version) m p =
    if destination_of m == p.laddr
    then say (report_cec_version_message p.laddr (initiator_of m)) p
    else p
switch_opcode e (some CecId.give_osd_name) m p =
    if destination_of m == p.laddr
    then say (set_osd_name_message p.laddr (initiator_of m) p.config.osd_name) p
    else p
switch_opcode e (some CecId.give_physical_address) m p =
    if destination_of m == p.laddr && not (p.paddr == 0)
    then say (report_physical_address_message p.laddr 15 p.paddr p.config.device_type) p
    else p
switch_opcode e (some CecId.user_control_pressed) m p =
    if destination_of m == p.laddr then show_lamp Lamp.green_on p else p
switch_opcode e (some CecId.user_control_released) m p =
    if destination_of m == p.laddr then show_lamp Lamp.off p else p
switch_opcode e (some CecId.abort) m p =
    if destination_of m == p.laddr
    then say (feature_abort_message p.laddr (initiator_of m) (opcode m) abort_refused) p
    else p
switch_opcode e (some CecId.feature_abort) m p =
    if initiator_of m == 0
      && destination_of m == p.laddr
      && operand m 0 == opcode_of CecId.give_device_power_status
      && in_window e.arrived p
    then wake_waiter (0x100 + operand m 1) p
    else p
switch_opcode e (some CecId.report_audio_status) m p =
    if destination_of m == p.laddr
    then say (feature_abort_message p.laddr (initiator_of m) (opcode m) abort_unrecognized) p
    else p
switch_opcode e (some CecId.request_arc_initiation) m p =
    if destination_of m == p.laddr
    then say (feature_abort_message p.laddr (initiator_of m) (opcode m) abort_unrecognized) p
    else p
switch_opcode e none m p =
    if destination_of m == p.laddr
    then say (feature_abort_message p.laddr (initiator_of m) (opcode m) abort_unrecognized) p
    else p
switch_opcode e (some _) m p = p

-- Another initiator uses our address: give it up for two seconds.
abbrev pub yield_address : ℕ → Task → Task
yield_address now p = record p { laddr = 15; source_active = false; next_allocate = now + 2000000 }

unfoldable pub dispatch_message : Arrival → Message → Task → Task
unfolding switch_opcode
dispatch_message e m p =
    if ltb 1 m.len && cec_message_valid m && cec_ready p
    then if initiator_of m == p.laddr
      then yield_address e.now p
      else switch_opcode e (cec_id (opcode m)) m p
    else p
