-- ===== src/Task.antt =====
-- The CEC task (src/cec-task.c): its variables, the accessors that other tasks call, and the
-- messages that it sends. The children model its operations.
pub mod Allocate
pub mod Dispatch
pub mod Client
pub mod Service
use cec_controller.Common.{
  ℕ, zero, suc, ◌+◌, ◌/◌, ◌%◌, Bool, true, false, not, ◌&&◌, ◌||◌, List, [], ◌∷◌, Option, none,
  some, leb, ltb, ◌==◌, if◌then◌else◌, u8, take, pad,
}
use cec_controller.CecId.{
  CecId, opcode_of, feature_abort, device_vendor_id, report_power_status, set_system_audio_mode,
  report_audio_status, system_audio_mode_status, set_osd_name, report_physical_address, cec_version,
  active_source, menu_status,
}
use cec_controller.Message.{Message, header0, message}
use cec_controller.Config.{Config, osd_name_max_len}

-- The states of the indicator that the task asks for.
pub data Lamp : Type 0 where
  blue_2hz green_2hz green_on off : Lamp

-- The static variables. `sent` has the messages handed to cec_frame_send, `notified` the
-- notifications (task, index, value) and `lamps` the calls of the indicator, each the latest first.
pub record Task : Type 0 where
  pub config : Config
  pub laddr : ℕ
  pub paddr : ℕ
  pub active_addr : ℕ
  pub audio_status : Bool
  pub queue_created : Bool
  pub waiter : Option ℕ
  pub tx_generation : ℕ
  pub cancelled_tx : ℕ
  pub power_query_since : ℕ
  pub power_query_deadline : ℕ
  pub source_active : Bool
  pub menu_state : Bool
  pub next_allocate : ℕ
  pub routing_address : ℕ
  pub routing_at : ℕ
  pub sent : List Message
  pub notified : List (ℕ × ℕ × ℕ)
  pub lamps : List Lamp

unfoldable pub cec_ready : Task → Bool
cec_ready p = p.queue_created && ltb 0 p.laddr && ltb p.laddr 15

unfoldable pub cec_set_source_active : Bool → Task → Task
cec_set_source_active active p = record p {
  source_active = active;
  active_addr = if active then p.paddr else p.active_addr;
}

unfoldable pub cec_routing_confirmed : ℕ → ℕ → Task → Bool
cec_routing_confirmed physical since p = p.routing_address == physical && leb since p.routing_at

unfoldable pub cec_apply_config : Config → Task → Task
cec_apply_config value p = record p { config = value; laddr = 15 }

unfoldable pub cec_set_physical_address : ℕ → Task → Task
cec_set_physical_address address p = record p {
  config = record (p.config) { physical_address = address };
  paddr = address;
}

-- The two notification slots of a client task.
abbrev pub notify_tx : ℕ
notify_tx = 0

abbrev pub notify_power : ℕ
notify_power = 1

-- cec_frame_send with a result that nobody looks at.
abbrev pub say : Message → Task → Task
say m p = record p { sent = m ∷ p.sent }

abbrev pub show_lamp : Lamp → Task → Task
show_lamp l p = record p { lamps = l ∷ p.lamps }

unfoldable pub feature_abort_message : ℕ → ℕ → ℕ → ℕ → Message
feature_abort_message initiator destination msg reason =
    message (header0 initiator destination) feature_abort (msg ∷ reason ∷ []) 4

unfoldable pub device_vendor_id_message : ℕ → ℕ → ℕ → Message
device_vendor_id_message initiator destination vendor_id =
    message (header0 initiator destination) device_vendor_id
      (u8 (vendor_id / 65536) ∷ u8 (vendor_id / 256) ∷ u8 vendor_id ∷ []) 5

unfoldable pub report_power_status_message : ℕ → ℕ → ℕ → Message
report_power_status_message initiator destination power_status =
    message (header0 initiator destination) report_power_status (power_status ∷ []) 3

abbrev pub number_of : Bool → ℕ
number_of true = 1
number_of false = 0

unfoldable pub set_system_audio_mode_message : ℕ → ℕ → Bool → Message
set_system_audio_mode_message initiator destination mode =
    message (header0 initiator destination) set_system_audio_mode (number_of mode ∷ []) 3

unfoldable pub report_audio_status_message : ℕ → ℕ → ℕ → Message
report_audio_status_message initiator destination status =
    message (header0 initiator destination) report_audio_status (status ∷ []) 3

unfoldable pub system_audio_mode_status_message : ℕ → ℕ → Bool → Message
system_audio_mode_status_message initiator destination mode =
    message (header0 initiator destination) system_audio_mode_status (number_of mode ∷ []) 3

-- strnlen.
unfoldable pub strnlen : List ℕ → ℕ → ℕ
strnlen [] n = 0
strnlen (c ∷ cs) zero = 0
strnlen (c ∷ cs) (suc n) = let rest = strnlen cs n in if c == 0 then 0 else suc rest

unfoldable pub set_osd_name_message : ℕ → ℕ → List ℕ → Message
unfolding strnlen
set_osd_name_message initiator destination name =
    let name_len = strnlen name osd_name_max_len in
    message (header0 initiator destination) set_osd_name (take name_len name) (2 + name_len)

unfoldable pub report_physical_address_message : ℕ → ℕ → ℕ → ℕ → Message
report_physical_address_message initiator destination physical type =
    message (header0 initiator destination) report_physical_address
      (u8 (physical / 256) ∷ u8 physical ∷ type ∷ []) 5

-- 4 is version 1.3a.
unfoldable pub report_cec_version_message : ℕ → ℕ → Message
report_cec_version_message initiator destination =
    message (header0 initiator destination) cec_version (4 ∷ []) 3

-- cec_ping: a header byte alone.
unfoldable pub ping_message : ℕ → Message
ping_message destination = record {
  bytes = pad 16 0 (header0 destination destination ∷ []);
  len = 1;
}

unfoldable pub active_source_message : ℕ → ℕ → Message
active_source_message initiator physical =
    message (header0 initiator 15) active_source (u8 (physical / 256) ∷ u8 physical ∷ []) 4

unfoldable pub menu_status_message : ℕ → ℕ → Bool → Message
menu_status_message initiator destination menu_state =
    message (header0 initiator destination) menu_status ((if menu_state then 0 else 1) ∷ []) 3
