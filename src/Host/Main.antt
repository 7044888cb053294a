-- ===== src/Host/Main.antt =====
-- The host command as a whole (host/src/main.c, open_controller and main). What the operating system
-- gives is a record: the clock where the program reads it, the files, the turns of each loop.
pub mod Laws
use cec_controller.Common.{
  ℕ, zero, suc, ◌+◌, Bool, true, false, not, ◌&&◌, ◌||◌, List, [], ◌∷◌, Option, none, some, leb,
  ltb, ◌==◌, if◌then◌else◌, Text, codes, same_text,
}
use cec_controller.Host.Reply.{Reply}
use cec_controller.Host.Reader.{Wanted}
use cec_controller.Host.Files.{Errno, exists, invalid, Disk}
use cec_controller.Host.Options.{Options, Stream, CommandLine, command_line, stopped, set_up}
use cec_controller.Host.Cache.{Writing}
use cec_controller.Host.Resolve.{Resolution, resolved, unresolved, resolve_address}
use cec_controller.Host.Port.{Answer, replied, fault, Exchange, transact}
use cec_controller.Host.Run.{
  Command, name_of, invocation_ms, operation_ms, wire_of, Round, Lookup, Plan, Run, run_operation,
}

-- One turn of open_controller: the clock at its test; the device cannot be opened, for lack of rights
-- or for another reason, another process has locked it, it cannot be set up, or it is there.
pub data Opening : Type 0 where
  not_opened denied locked not_set opened : Opening

pub record OpenTurn : Type 0 where
  pub now : ℕ
  pub opening : Opening

abbrev open_turn : Bool → Opening → Bool
open_turn rest not_opened = rest
open_turn rest denied = false
open_turn rest locked = rest
open_turn rest not_set = false
open_turn rest opened = true

unfoldable pub open_controller : ℕ → List OpenTurn → Bool
open_controller deadline [] = false
open_controller deadline (turn ∷ turns) =
    let after = open_turn (open_controller deadline turns) turn.opening in
    if ltb turn.now deadline then after else false

-- One turn of the loop that waits for an address: what resolve_address gives, and the clock at the
-- test behind a failure.
pub record Try : Type 0 where
  pub resolution : Resolution
  pub now : ℕ

-- An error that time does not mend.
abbrev pub is_final : Errno → Bool
is_final exists = true
is_final invalid = true
is_final _ = false

-- The address, or `none` inside for the exit status 3; `none` outside is the end of the fuel.
abbrev pub try_again : Resolution → Bool → Option (Option ℕ) → Option (Option ℕ)
try_again (resolved address source) late rest = some (some address)
try_again (unresolved e) late rest = if is_final e || late then some none else rest

unfoldable pub await_address : ℕ → ℕ → (ℕ → Try) → ℕ → Option (Option ℕ)
await_address zero deadline tries k = none
await_address (suc fuel) deadline tries k =
    try_again (tries k).resolution (leb deadline ((tries k).now + 100))
      (await_address fuel deadline tries (k + 1))

-- What a run of the program meets.
pub record World : Type 0 where
  pub streams : Text → Stream
  pub directory_error : Errno
  pub writing : Writing
  pub disks : ℕ → Disk
  pub tried : ℕ → ℕ
  pub started : ℕ
  pub startup : ℕ
  pub opening : List OpenTurn
  pub probed : ℕ
  pub probe : Exchange
  pub random : Option ℕ
  pub rounds : ℕ → Round
  pub lookup : Lookup

unfoldable pub try_of : World → Options → ℕ → Try
unfolding resolve_address
try_of w o k = record {
  resolution = (resolve_address w.directory_error w.writing (w.disks k) o).0;
  now = w.tried k;
}

abbrev pub probe_wanted : Wanted
probe_wanted = record { command = codes "protocol"; id = 0; session = none }

unfoldable pub probe_reply : World → Answer
unfolding transact
probe_reply w = (transact probe_wanted (w.probed + 2000) (codes "tv protocol\n") w.probe).0

unfoldable pub plan_of : World → Command → ℕ → ℕ → Reply → Plan
unfolding wire_of
plan_of w c address id probe = record {
  wanted = record { command = name_of c; id = id; session = some probe.session };
  wire = wire_of c address id;
  limit_ms = operation_ms c probe;
  deadline = w.started + invocation_ms c;
}

abbrev pub nonzero : ℕ → ℕ
nonzero id = if id == 0 then 1 else id

-- The exit status with the run, when there is one. The probe and the random number come before it.
abbrev pub Ended : Type 0
Ended = Option (ℕ × Option Run)

abbrev pub with_run : Option (ℕ × Run) → Ended
with_run none = none
with_run (some (status, run)) = some (status, some run)

unfoldable pub operate_with : World → Command → ℕ → Reply → Option ℕ → Ended
unfolding run_operation plan_of
operate_with w c address probe none = some (4, none)
operate_with w c address probe (some id) =
    with_run (run_operation 401 (plan_of w c address (nonzero id) probe) w.rounds w.lookup)

abbrev pub is_ok : Answer → Option Reply
is_ok (replied r) = if r.ok then some r else none
is_ok (fault _) = none

abbrev pub with_probe : World → Command → ℕ → Option Reply → Ended
with_probe w c address none = some (4, none)
with_probe w c address (some probe) = operate_with w c address probe w.random

unfoldable pub control : World → Options → Command → ℕ → Ended
unfolding open_controller probe_reply operate_with
control w o c address =
    if open_controller (w.startup + 5000) w.opening
    then with_probe w c address (is_ok (probe_reply w))
    else some (4, none)

abbrev pub with_address : World → Options → Option (Option ℕ) → Ended
with_address w o none = none
with_address w o (some none) = some (3, none)
with_address w o (some (some address)) = control w o Command.on address

-- The startup limit of five seconds and the pauses of 100 ms: 51 tries.
unfoldable pub control_on : World → Options → Ended
unfolding await_address try_of control
control_on w o = with_address w o (await_address 51 (w.startup + 5000) (try_of w o) 0)

abbrev pub probe_status : Option Reply → ℕ
probe_status none = 4
probe_status (some _) = 0

abbrev pub detect_status : Resolution → ℕ
detect_status (resolved _ _) = 0
detect_status (unresolved _) = 3

unfoldable pub run_command : World → Text → Options → Ended
unfolding control_on control resolve_address probe_reply open_controller
run_command w command o =
    if same_text command (codes "detect")
    then some (detect_status ((resolve_address w.directory_error w.writing (w.disks 0) o).0), none)
    else if same_text command (codes "on")
    then control_on w o
    else if same_text command (codes "standby")
    then control w o Command.standby 0
    else if same_text command (codes "status")
    then control w o Command.status 0
    else if same_text command (codes "protocol")
    then some (
      if open_controller (w.startup + 5000) w.opening
          then probe_status (is_ok (probe_reply w))
          else 4,
      none,
    )
    else some (2, none)

abbrev pub run_line : World → CommandLine → Ended
run_line w (stopped status) = some (status, none)
run_line w (command_line none o) = some (2, none)
run_line w (command_line (some command) o) = run_command w command o

unfoldable pub main : World → List Text → Ended
unfolding set_up run_command
main w args = run_line w (set_up w.streams args)
