-- ===== src/Lib.antt =====
-- The firmware of a bridge from USB to HDMI-CEC: a host asks it over a serial line to switch a
-- television on or off, and it speaks CEC on one wire.
--
-- Parts and files. A definition has the name of the function that it models.
--   CecId, Message   include/cec-id.h, include/cec-message.h: opcodes, messages, results.
--   Validate         src/cec-validate.c: the checks of addresses and messages.
--   Frame            src/cec-frame.c: the receiver (Frame/Rx) as the function of an interrupt on the
--                    state, the transmitter (Frame/Tx) as the function of an alarm. Frame/Wave is an
--                    independent description of a frame as changes of the line, and
--                    Frame/RoundTrip joins the two sides over it. Frame/Send has a transmission as a
--                    whole, with the wait for an idle line and the statistics.
--   Log              src/cec-log.c: the line for a frame and the lines that are queued.
--   Control          src/cec-control.c: the power operations over a bus, which is a parameter: a state
--                    of any type with the callbacks of cec_control_bus_t. Control/Trace records the
--                    calls, to speak about their order. Control/Names has the names that are printed.
--   Task             src/cec-task.c: the static variables as a record, the allocation of an address
--                    (Task/Allocate), the handling of a message (Task/Dispatch), the calls of other
--                    tasks (Task/Client), the queue of requests and the loop (Task/Service).
--   Config, Health   src/cec-config.c, include/cec-config.h, include/cec-health.h.
--   Serial           src/usb-cdc.c: the static variables as a record; the command `tv` (Serial/Command),
--                    the worker (Serial/Worker) with its bus (Serial/Bus) and its ring of results
--                    (Serial/Reply), the commands that set and send (Serial/Settings,
--                    Serial/Send), and the command `show` (Serial/Show).
--                    Serial/Session runs the commands against the worker, in any order of events.
--   Stored           src/nvs.c: reading and saving of the configuration.
--   Ddc              src/ddc.c: the search of the firmware for its address in an EDID.
--   Host             host/src/edid.c: addresses as text (Host/Address), the search of an EDID
--                    (Host/Edid), where a read outside of the bytes ends the run with `none`.
--                    host/src/protocol.c: the reader of replies (Host/Reply, Host/Checks,
--                    Host/Protocol). host/src/main.c: the splitting of the port's bytes into
--                    lines (Host/Reader), an exchange over the port (Host/Port), the options
--                    (Host/Options), the files (Host/Files), the search for the display
--                    (Host/Discovery), the file with the address (Host/Cache), the choice of the
--                    address (Host/Resolve), an operation up to its exit status (Host/Run) and the
--                    program as a whole (Host/Main); what it prints of a reply (Host/Print).
--                    Host/Agreement joins the printer of the firmware and the reader of the host,
--                    Host/Wire the line that the host sends and the command of the firmware.
--   Common           shared names, native lists, words, loops, digits, texts.  Tests: runs at concrete inputs.
--
-- The serial worker gives its bus to the control operations, and keeps and prints their results,
-- which the host reads. The control operations call the task through the bus; the task calls the
-- frame layer, whose result is the value of `Wire`; the frame layer and the task share the messages
-- and their check.
--
-- State and time. The clock, the level of the line, alarms, queues and notifications belong to the
-- platform, and enter as the values that the calls return. A loop around such calls takes them as a
-- list of turns, and where the list ends the limit of time has passed. The clock that the power
-- operations and the worker read runs on: each reading of it changes the state. Host/Main.World holds all that
-- a run of the host command meets. Numbers are natural numbers; where the
-- source relies on the width of a word, the remainder is written out. A message is its 16 bytes with
-- a length. A text is a list of character codes, and what is printed is a list of texts.
--
-- Fuel. The loop of confirm_power runs on as many turns as its deadline is in milliseconds, and one
-- more: every turn ends the loop or delays. The callback of the transmitter calls itself at most once
-- in a call. The loop over the data blocks of an EDID runs on 128 turns on the host, more than an
-- extension has bytes, and on 256 turns in the firmware, whose counter has 8 bits. The worker's wait
-- for an address runs on as many turns as its deadline in the same way. The host runs its loop over an
-- operation on 401 rounds, and its wait for an address on 51: the limits are 40 and 5 seconds, and
-- each round pauses for 100 ms. All other loops follow a list or a count.
--
-- Hypotheses. `Paced`, and `PacedLink` for the platform under the worker, say that the time does not
-- run backwards over a call, that a reading of the clock gives the time at its start, behind which some
-- time may pass, and that a delay takes its time; no call has an upper limit to the time that it takes.
-- `Sound` says of a result that its numbers are in range and that a success has what its command asks
-- for. Tests has a bus, a link and a result for which they hold.
--
-- `IsPaced` says that the clock of the host goes on, by at least the pauses. `Splits` says that the
-- shell of the firmware calls a command with the words of its line, and `NeverExists` that opening and
-- reading a file does not fail with EEXIST.
--
-- Not modelled: the serial shell and the transfers over USB, the lamps and the programming of the flash,
-- which are calls of the platform; the creation of the tasks; the help and the
-- messages on errors that the host prints.
mod Common
pub mod CecId
pub mod Message
pub mod Validate
pub mod Control
pub mod Frame
pub mod Config
pub mod Health
pub mod Task
pub mod Serial
pub mod Stored
pub mod Ddc
pub mod Host
pub mod Log
mod Tests
