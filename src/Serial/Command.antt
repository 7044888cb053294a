-- ===== src/Serial/Command.antt =====
-- The command `tv` (src/usb-cdc.c, exec_tv). Its result is true for 0 and false for -1.

pub mod Laws
use cec_controller.Common.{
  ℕ, zero, suc, ◌+◌, ◌%◌, Bool, true, false, not, ◌&&◌, ◌||◌, List, [], ◌∷◌, ◌++◌, Option, none,
  some, leb, ltb, ◌==◌, if◌then◌else◌, u16, length, get_or, Text, codes, same_text, hex_text,
  decimal_text,
}
use cec_controller.Validate.{cec_physical_address_valid}
use cec_controller.Control.{on_timeout_ms, standby_timeout_ms, status_timeout_ms}
use cec_controller.Serial.{
  Operation, Retained, not_retained, Serial, print, cdc_printfln, operation_error, parse_id,
  scan_hex,
}

-- What the command reads of the build (PICO_CEC_VERSION, CEC_PIN) and of the CEC task (cec_ready,
-- cec_get_physical_address).
pub record Device : Type 0 where
  pub version : Text
  pub pin : ℕ
  pub ready : Bool
  pub physical : ℕ

abbrev digit_of : Bool → Text
digit_of b = if b then codes "1" else codes "0"

unfoldable pub protocol_line : Device → Serial → Text
protocol_line d p =
    codes "CECCTRL/2 OK command=protocol firmware="
    ++ (d.version
        ++ (codes " session="
            ++ (hex_text 16 p.session_id
                ++ (codes " on_ms="
                    ++ (decimal_text on_timeout_ms
                        ++ (codes " standby_ms="
                            ++ (decimal_text standby_timeout_ms
                                ++ (codes " status_ms="
                                    ++ (decimal_text status_timeout_ms
                                        ++ (codes " gpio="
                                            ++ (decimal_text d.pin
                                                ++ (codes " ready="
                                                    ++ (digit_of d.ready
                                                        ++ (codes " busy="
                                                            ++ (digit_of p.operation_busy
                                                            ++ (codes " active="
                                                            ++ (hex_text 16 (
                                                            if p.operation_busy
                                                            then p.current_operation.id
                                                            else 0)
                                                            ++ (codes " phase="
                                                            ++ p.operation_phase))))))))))))))))))

-- The search of the retained results: the first one with the id, else one of zeros.
unfoldable pub find_retained : ℕ → List Retained → Retained
find_retained id [] = not_retained
find_retained id (entry ∷ entries) =
    if entry.request.id == id then entry else find_retained id entries

-- `sscanf(argv[2], "%4x%c", &physical, &extra) == 1` for a text of four characters, and the check.
abbrev no_extra : Option (ℕ × Text) → Option ℕ
no_extra (some (n, [])) = if cec_physical_address_valid (u16 n) then some (u16 n) else none
no_extra _ = none

unfoldable pub address_argument : Text → Option ℕ
address_argument text = if length text == 4 then no_extra (scan_hex text) else none

-- An error with the identity of the request, and the result -1.
abbrev pub refuse : Operation → Text → Serial → Bool × Serial
refuse request code p = (false, operation_error request.command request.id code p)

-- xQueueSend, with what the queue holds.
unfoldable pub try_send : Option Operation → Operation → Serial → Bool × Serial
try_send none request p =
    (true, record p { operation_busy = true; current_operation = request; pending = some request })
try_send (some other) request p =
    refuse request (codes "busy") (record p { operation_busy = false; current_operation = request })

-- The end of exec_tv: what is left when no retained result answers.
unfoldable pub queue_request : Bool → Bool → Operation → Serial → Bool × Serial
unfolding try_send
queue_request on result_query request p =
    if p.operation_busy
    then refuse request (codes "busy") p
    else if result_query
    then refuse request (codes "unknown_request") p
    else if on && not (cec_physical_address_valid request.physical)
    then refuse request (codes "invalid_physical_address") p
    else try_send p.pending request p

-- The part of exec_tv from the search of the retained results on.
unfoldable pub submit_request : Bool → Bool → Operation → Serial → Bool × Serial
unfolding find_retained queue_request
submit_request on result_query request p =
    let cached = find_retained request.id p.retained in
    if not (cached.request.id == 0)
    then if not result_query
        && (not (same_text cached.request.command request.command)
            || (on && not (cached.request.physical == request.physical)))
      then (false, operation_error request.command request.id (codes "id_conflict") p)
      else (true, print cached.text p)
    else queue_request on result_query request p

-- `if (argc > id_index && !parse_id(...)) return -1;`, with the result of parse_id.
unfoldable pub with_parsed : Bool → Bool → Option ℕ → Operation → Serial → Bool × Serial
unfolding submit_request
with_parsed on result_query none request p = (false, p)
with_parsed on result_query (some id) request p =
    submit_request on result_query (record request { id = id }) p

-- The part behind the address, with `first` the index of the argument for an id.
unfoldable pub with_id : Bool → Bool → List Text → Operation → Serial → Bool × Serial
unfolding with_parsed
with_id on result_query argv request p =
    let first = if on then 3 else 2 in
    if ltb first (length argv)
    then with_parsed on result_query (parse_id (get_or argv first [])) request p
    else submit_request on result_query request p

-- The check of the address argument.
unfoldable pub with_address : List Text → Option ℕ → Operation → Serial → Bool × Serial
unfolding with_id
with_address argv none request p = refuse request (codes "invalid_physical_address") p
with_address argv (some physical) request p =
    with_id true false argv (record request { physical = physical }) p

-- The part behind the test of the number of arguments; `p` has the next number of its own.
unfoldable pub checked_request : List Text → Operation → Serial → Bool × Serial
unfolding with_address
checked_request argv request p =
    let on = same_text request.command (codes "on") in
    let result_query = same_text request.command (codes "result") in
    let argc = length argv in
    if not on
      && not result_query
      && not (same_text request.command (codes "standby"))
      && not (same_text request.command (codes "status"))
    then (false, p)
    else if (not on && ltb 3 argc) || (result_query && not (argc == 3))
    then (false, p)
    else if on && leb 3 argc
    then with_address argv (address_argument (get_or argv 2 [])) request p
    else with_id on result_query argv request p

unfoldable pub exec_tv : Device → List Text → Serial → Bool × Serial
unfolding checked_request protocol_line
exec_tv d argv p =
    let argc = length argv in
    let command = get_or argv 1 [] in
    let next = (p.manual_id + 1) % 18446744073709551616 in
    if ltb argc 2 || ltb 4 argc
    then (false, p)
    else if same_text command (codes "protocol") && argc == 2
    then (true, cdc_printfln (protocol_line d p) p)
    else checked_request argv (record { id = next; command = command; physical = d.physical })
        (record p { manual_id = next })
