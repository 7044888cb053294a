-- ===== src/Serial/Reply.antt =====
-- The text of a result and the ring of results (src/usb-cdc.c, the end of operation_worker).
use cec_controller.Common.{
  ℕ, ◌+◌, ◌%◌, Bool, true, false, ◌&&◌, List, [], ◌∷◌, ◌++◌, if◌then◌else◌, take, set, Text, codes,
  same_text, hex_text, decimal_text,
}
use cec_controller.Control.{Code, ControlResult}
use cec_controller.Control.Names.{cec_control_result_name, cec_control_power_name, phase_name}
use cec_controller.Serial.{Operation, Retained, Serial, result_count, print}

-- The keys of the format string with what is printed for each.
unfoldable pub reply_fields : ℕ → Operation → ControlResult → List (Text × Text)
unfolding cec_control_result_name cec_control_power_name phase_name
reply_fields session request r =
    (codes "command", request.command)
    ∷ (codes "id", hex_text 16 request.id)
    ∷ (codes "session", hex_text 16 session)
    ∷ (codes "code", cec_control_result_name r.code)
    ∷ (codes "power", cec_control_power_name r.power_status)
    ∷ (codes "value", decimal_text r.power_status)
    ∷ (codes "verified", if r.power_confirmed then codes "1" else codes "0")
    ∷ (codes "source", if r.source_announced then codes "announced" else codes "none")
    ∷ (codes "routing", if r.routing_confirmed then codes "confirmed" else codes "unconfirmed")
    ∷ (codes "attempts", decimal_text r.attempts)
    ∷ (codes "elapsed_ms", decimal_text r.elapsed_ms)
    ∷ (codes "phase", phase_name r.phase)
    ∷ []

abbrev pub fields_text : List (Text × Text) → Text
fields_text [] = []
fields_text ((key, value) ∷ fields) = 32 ∷ (key ++ (61 ∷ (value ++ fields_text fields)))

abbrev pub is_ok : Code → Bool
is_ok Code.ok = true
is_ok _ = false

-- The text of a reply.
unfoldable pub reply_line : ℕ → Operation → ControlResult → Text
unfolding reply_fields
reply_line session request r =
    codes "\r\nCECCTRL/2 "
    ++ ((if is_ok r.code then codes "OK" else codes "ERR")
        ++ (fields_text (reply_fields session request r) ++ codes "\r\n"))

-- `config.physical_address = request.physical`, in the branch of the command `on`.
abbrev pub remember_address : Bool → Operation → Serial → Serial
remember_address run request p =
    if run && same_text request.command (codes "on")
    then record p { config = record (p.config) { physical_address = request.physical } }
    else p

-- The entry in the ring of results.
unfoldable pub retain : Retained → Serial → Serial
retain entry p = record p {
  retained = set p.retained p.retained_next entry;
  retained_next = (p.retained_next + 1) % result_count;
}

-- The entry for an operation with its result. snprintf cuts the text at the size of the buffer.
unfoldable pub entry_of : ℕ → Operation → ControlResult → Retained
unfolding reply_line
entry_of session request r = record {
  request = request;
  text = take 383 (reply_line session request r);
}

-- The end of a round of the worker: the phase is idle again.
unfoldable pub finish_operation : Operation → ControlResult → Serial → Serial
unfolding retain entry_of
finish_operation request r p =
    let entry = entry_of p.session_id request r in
    record (print entry.text (retain entry p)) {
      operation_busy = false;
      operation_phase = codes "idle";
    }
