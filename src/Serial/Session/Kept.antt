-- ===== src/Serial/Session/Kept.antt =====
-- What the command `tv result` answers (src/usb-cdc.c, exec_tv).
use cec_controller.Common.{
  ℕ, ◌%◌, ◌+◌, ◌<◌, ◌≡◌, ◌≢◌, refl, ◌∙◌, true, false, List, [], ◌∷◌, none, some, arith, Text, codes,
  hex_number, hex_text, power, length-hex_onto, ◌==◌, if◌then◌else◌, hex_number-hex_onto, same_text,
}
use cec_controller.Config.{Config}
use cec_controller.Serial.{Operation, Retained, Serial, parse_id, print}
use cec_controller.Serial.Command.{
  Device, find_retained, submit_request, with_parsed, with_id, checked_request, exec_tv,
}
use cec_controller.Serial.Session.{fresh, Event, Session, session_run}
use cec_controller.Serial.Session.Slots.{ended_at}
use cec_controller.Serial.Session.Invariant.{latest-find, reached-Inv}

nonzero_id : (id : ℕ) → id ≢ 0 → (if id == 0 then none else some id) ≡ some id
nonzero_id id nz = ground arith

pub parse_id-hex_text : (id : ℕ) → id ≢ 0 → id < power 16 16 → parse_id (hex_text 16 id) ≡ some id
unfolding parse_id hex_number
parse_id-hex_text id nz h =
    rw (hex_number-hex_onto 16 0 id [] h) (rw (length-hex_onto 16 id []) (ground arith))

submit_request-kept :
    (r : Operation) (p : Serial) (entry : Retained)
    → find_retained r.id p.retained ≡ entry
    → entry.request.id ≡ r.id
    → r.id ≢ 0
    → submit_request false true r p ≡ (true, print entry.text p)
unfolding submit_request
submit_request-kept r p entry e same nz = ground (arith, e)

result_command :
    (d : Device) (id : ℕ) (text : Text) (p : Serial)
    → parse_id text ≡ some id
    → exec_tv d (codes "tv" ∷ codes "result" ∷ text ∷ []) p
      ≡ submit_request false true
          (record { id = id; command = codes "result"; physical = d.physical })
          (record p { manual_id = (p.manual_id + 1) % 18446744073709551616 })
unfolding exec_tv checked_request with_id with_parsed same_text
result_command d id text p e = rw e refl

-- From the start of the firmware, whatever commands arrive and however the worker takes and ends
-- requests: for each of the last eight requests that have ended, with an id of 64 bits other than
-- 0, the command `tv result` with this id in 16 digits succeeds, prints the text of that request,
-- and changes nothing else but the number for the next id.
pub exec_tv-result :
    (random : ℕ) (loaded : Config) (es : List Event) (d : Device) (i : ℕ)
    → let s = session_run es (fresh random loaded) in
      let entry = ended_at s.ended i in
      i < 8
      → entry.request.id ≢ 0
      → entry.request.id < power 16 16
      → exec_tv d (codes "tv" ∷ codes "result" ∷ hex_text 16 entry.request.id ∷ []) s.serial ≡ (
        true,
        print entry.text
            (record (s.serial) { manual_id = (s.serial.manual_id + 1) % 18446744073709551616 }),
      )
exec_tv-result random loaded es d i a nz h =
    result_command d entry.request.id (hex_text 16 entry.request.id) s.serial
      (parse_id-hex_text entry.request.id nz h)
    ∙ submit_request-kept _ _ entry (latest-find s (reached-Inv random loaded es) i a nz) refl nz
  where
    s : Session
    s = session_run es (fresh random loaded)

    entry : Retained
    entry = ended_at s.ended i
