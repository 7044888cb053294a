-- ===== src/Host/Reply.antt =====
-- The reply as the host keeps it (host/include/cecctl.h), and the keys of its fields
-- (host/src/protocol.c).
use cec_controller.Common.{
  ℕ, Bool, false, ◌||◌, List, [], ◌∷◌, Option, none, some, ◌==◌, if◌then◌else◌, Text, codes,
  same_text,
}

-- cecctl_reply_t.
pub record Reply : Type 0 where
  pub ok : Bool
  pub command : Text
  pub code : Text
  pub power : Text
  pub firmware : Text
  pub attempts : ℕ
  pub session : Text
  pub source : Text
  pub routing : Text
  pub phase : Text
  pub id : ℕ
  pub value : ℕ
  pub verified : ℕ
  pub elapsed_ms : ℕ
  pub on_ms : ℕ
  pub standby_ms : ℕ
  pub status_ms : ℕ
  pub gpio : ℕ
  pub ready : ℕ
  pub busy : ℕ

abbrev pub empty_reply : Reply
empty_reply = record {
  ok = false;
  command = [];
  code = [];
  power = [];
  firmware = [];
  attempts = 0;
  session = [];
  source = [];
  routing = [];
  phase = [];
  id = 0;
  value = 0;
  verified = 0;
  elapsed_ms = 0;
  on_ms = 0;
  standby_ms = 0;
  status_ms = 0;
  gpio = 0;
  ready = 0;
  busy = 0;
}

-- The enumeration COMMAND to BUSY.
pub data Key : Type 0 where
  command session id code power value verified source routing attempts elapsed_ms phase firmware
        on_ms standby_ms status_ms gpio ready busy :
      Key

unfoldable pub key_index : Key → ℕ
key_index Key.command = 0
key_index Key.session = 1
key_index Key.id = 2
key_index Key.code = 3
key_index Key.power = 4
key_index Key.value = 5
key_index Key.verified = 6
key_index Key.source = 7
key_index Key.routing = 8
key_index Key.attempts = 9
key_index Key.elapsed_ms = 10
key_index Key.phase = 11
key_index Key.firmware = 12
key_index Key.on_ms = 13
key_index Key.standby_ms = 14
key_index Key.status_ms = 15
key_index Key.gpio = 16
key_index Key.ready = 17
key_index Key.busy = 18

-- The array of the names, and the search in it.
abbrev key_names : List (Text × Key)
key_names =
    (codes "command", Key.command)
    ∷ (codes "session", Key.session)
    ∷ (codes "id", Key.id)
    ∷ (codes "code", Key.code)
    ∷ (codes "power", Key.power)
    ∷ (codes "value", Key.value)
    ∷ (codes "verified", Key.verified)
    ∷ (codes "source", Key.source)
    ∷ (codes "routing", Key.routing)
    ∷ (codes "attempts", Key.attempts)
    ∷ (codes "elapsed_ms", Key.elapsed_ms)
    ∷ (codes "phase", Key.phase)
    ∷ (codes "firmware", Key.firmware)
    ∷ (codes "on_ms", Key.on_ms)
    ∷ (codes "standby_ms", Key.standby_ms)
    ∷ (codes "status_ms", Key.status_ms)
    ∷ (codes "gpio", Key.gpio)
    ∷ (codes "ready", Key.ready)
    ∷ (codes "busy", Key.busy)
    ∷ []

search_key : Text → List (Text × Key) → Option Key
unfolding same_text
search_key text [] = none
search_key text ((name, key) ∷ names) =
    if same_text text name then some key else search_key text names

unfoldable pub key_of : Text → Option Key
unfolding search_key
key_of text = search_key text key_names

-- The bit of a key in `seen`.
unfoldable pub known : ℕ → List Key → Bool
unfolding key_index
known index [] = false
known index (key ∷ seen) = index == key_index key || known index seen
