-- ===== src/Host/Run.antt =====
-- A command to the television, from the probe of the controller to the exit status (host/src/main.c,
-- the end of main).
pub mod Laws
pub mod Success
use cec_controller.Common.{
  ℕ, zero, suc, ◌+◌, Bool, true, false, not, ◌&&◌, ◌||◌, List, [], ◌∷◌, ◌++◌, Option, none, some,
  ltb, leb, ◌==◌, if◌then◌else◌, Text, codes, same_text, hex_text,
}
use cec_controller.Host.Reply.{Reply}
use cec_controller.Host.Reader.{Wanted}
use cec_controller.Host.Port.{Fault, timed_out, Answer, replied, fault, Exchange, transact}

-- The commands that are an operation of the television.
pub data Command : Type 0 where
  on standby status : Command

abbrev pub name_of : Command → Text
name_of Command.on = codes "on"
name_of Command.standby = codes "standby"
name_of Command.status = codes "status"

-- The limit of the whole run, in milliseconds.
abbrev pub invocation_ms : Command → ℕ
invocation_ms Command.on = 40000
invocation_ms Command.standby = 20000
invocation_ms Command.status = 12000

-- The limit of the operation that the controller has told.
abbrev pub operation_ms : Command → Reply → ℕ
operation_ms Command.on probe = probe.on_ms
operation_ms Command.standby probe = probe.standby_ms
operation_ms Command.status probe = probe.status_ms

-- The line for the controller: `tv on %04x %016llx`, `tv %s %016llx`, `tv result %016llx`.
unfoldable pub wire_of : Command → ℕ → ℕ → Text
wire_of Command.on address id =
    codes "tv on " ++ (hex_text 4 address ++ (codes " " ++ (hex_text 16 id ++ codes "\n")))
wire_of Command.standby address id = codes "tv standby " ++ (hex_text 16 id ++ codes "\n")
wire_of Command.status address id = codes "tv status " ++ (hex_text 16 id ++ codes "\n")

unfoldable pub lookup_wire : ℕ → Text
lookup_wire id = codes "tv result " ++ (hex_text 16 id ++ codes "\n")

-- One turn of the loop: the clock at the test of the budget, where the limit of the exchange is set,
-- and behind the exchange.
pub record Round : Type 0 where
  pub check : ℕ
  pub start : ℕ
  pub exchange : Exchange
  pub after : ℕ

-- A line that the host sends, with the answer.
pub record Attempt : Type 0 where
  pub wire : Text
  pub answer : Answer

-- The attempts in order, and the last result: none when the budget is used up.
pub record Run : Type 0 where
  pub attempts : List Attempt
  pub result : Option Answer

abbrev pub is_busy : Answer → Bool
is_busy (replied r) = not r.ok && same_text r.code (codes "busy")
is_busy (fault _) = false

abbrev pub ask : Wanted → ℕ → Text → Exchange → Attempt
ask w deadline wire x = record { wire = wire; answer = (transact w deadline wire x).0 }

abbrev pub one_more : Attempt → Run → Run
one_more a run = record { attempts = a ∷ run.attempts; result = run.result }

abbrev pub last_one : Attempt → Run
last_one a = record { attempts = a ∷ []; result = some a.answer }

-- What an operation is about: the reply that is wanted, the line, its limit and that of the run.
pub record Plan : Type 0 where
  pub wanted : Wanted
  pub wire : Text
  pub limit_ms : ℕ
  pub deadline : ℕ

abbrev pub and_more : Attempt → Option Run → Option Run
and_more a none = none
and_more a (some run) = some (one_more a run)

-- The do-while loop, from round k on; `none` is the end of the fuel.
unfoldable pub operate : ℕ → Plan → (ℕ → Round) → ℕ → Option Run
unfolding transact
operate zero p rounds k = none
operate (suc fuel) p rounds k =
    let round = rounds k in
    let attempt = ask p.wanted (round.start + p.limit_ms + 500) p.wire round.exchange in
    let rest = and_more attempt (operate fuel p rounds (k + 1)) in
    if leb p.deadline (round.check + p.limit_ms + 500)
    then some (record { attempts = []; result = none })
    else if is_busy attempt.answer && ltb round.after p.deadline
    then rest
    else some (last_one attempt)

-- The clock at the test for a lookup and where its limit is set, and its exchange.
pub record Lookup : Type 0 where
  pub check : ℕ
  pub start : ℕ
  pub exchange : Exchange

-- A lookup of the result, when the time is out and there is more of it.
abbrev pub is_time_out : Option Answer → Bool
is_time_out (some (fault timed_out)) = true
is_time_out _ = false

unfoldable pub look_up : Plan → Lookup → Run → Run
unfolding transact lookup_wire
look_up p l run =
    let attempt = ask p.wanted (l.start + 1000) (lookup_wire p.wanted.id) l.exchange in
    if is_time_out run.result && ltb (l.check + 1000) p.deadline
    then record { attempts = run.attempts ++ (attempt ∷ []); result = some attempt.answer }
    else run

-- The exit status for the last result.
unfoldable pub status_of : Option Answer → ℕ
status_of none = 4
status_of (some (fault _)) = 4
status_of (some (replied r)) =
    if r.ok then 0 else if same_text r.code (codes "input_unconfirmed") then 6 else 5

abbrev pub ended_run : Plan → Lookup → Option Run → Option (ℕ × Run)
ended_run p l none = none
ended_run p l (some run) = some (status_of (look_up p l run).result, look_up p l run)

unfoldable pub run_operation : ℕ → Plan → (ℕ → Round) → Lookup → Option (ℕ × Run)
unfolding operate look_up status_of
run_operation fuel p rounds l = ended_run p l (operate fuel p rounds 0)
