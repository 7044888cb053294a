-- ===== src/Tests/Power.antt =====
-- Runs of the power operations over a television, with a clock that runs on at each reading (tests/firmware/test_cec_control.c).
use cec_controller.Common.{
  ℕ, ◌+◌, ◌≡◌, refl, true, Option, none, some, List, [], ◌∷◌, min, loop, arith,
}
use cec_controller.Validate.{cec_physical_address_valid}
use cec_controller.Message.{TxResult}
use cec_controller.Control.{
  Bus, ControlResult, Code, PowerQuery, available, remaining, operation_deadline, pause_operation,
  finish, initial_result, query_error,
}
use cec_controller.Control.Trace.{Traced, traced, provided, Paced}
use cec_controller.Control.Power.{
  confirm_power, first_poll, turn, send_turn, query_turn, send_power, take_report, next_turn,
}
use cec_controller.Control.Power.Invariant.{Result, confirm_power-Result}
use cec_controller.Control.Power.Termination.{confirm_power_total}
use cec_controller.Control.Operations.{cec_control_on, wake, activate, announce}

-- The television says each of the reports in turn, the last one for ever.
record Tv : Type 0 where
  now : ℕ
  reports : List ℕ

abbrev next_report : List ℕ → ℕ
next_report [] = 0
next_report (x ∷ xs) = x

abbrev later_reports : List ℕ → List ℕ
later_reports [] = []
later_reports (x ∷ []) = x ∷ []
later_reports (x ∷ y ∷ xs) = y ∷ xs

abbrev mock_bus : Bus Tv
mock_bus = record {
  send = λ m msg t. (TxResult.ack, record m { now = m.now + min t 50 });
  delay = λ m d. record m { now = m.now + d };
  query_power = λ m address status t. (
    PowerQuery.ok,
    next_report m.reports,
    record m { now = m.now + min t 50; reports = later_reports m.reports },
  );
  now_ms = λ m. (m.now, record m { now = m.now + 1 });
  routing_confirmed = some (λ m p. true);
  deadline_ms = 0;
}

abbrev asleep : Tv
asleep = record { now = 7; reports = 1 ∷ 2 ∷ 2 ∷ 0 ∷ 0 ∷ [] }

abbrev time : Tv → ℕ
time m = m.now

mock_bus-Paced : Paced mock_bus time
mock_bus-Paced = record {
  now_reads = λ s. refl;
  now_paced = λ s. omega arith;
  send_paced = λ s m t. omega arith;
  query_paced = λ s a i t. omega arith;
  delay_paced = λ s d. omega arith;
}

abbrev value_of : {S : Type 0} → S → Option (ControlResult × S) → ControlResult × S
value_of s none = (initial_result, s)
value_of s (some r) = r

-- The television wakes while it is polled: one request, then two reports in a row that it is on.
abbrev woken : ControlResult × Traced Tv
woken = value_of (asleep, []) (confirm_power (traced mock_bus time) 4 0 30000 (asleep, []))

abbrev switched_on : ControlResult × Traced Tv
switched_on =
    value_of (asleep, [])
      (cec_control_on (some (provided (traced mock_bus time))) 4 0x3000 4 (asleep, []))

wake_code : switched_on.0.code ≡ Code.ok
unfolding cec_control_on available wake activate announce confirm_power loop first_poll turn
    send_turn query_turn send_power take_report next_turn remaining operation_deadline
    pause_operation finish initial_result query_error cec_physical_address_valid
wake_code = refl

wake_attempts : switched_on.0.attempts ≡ 1
unfolding cec_control_on available wake activate announce confirm_power loop first_poll turn
    send_turn query_turn send_power take_report next_turn remaining operation_deadline
    pause_operation finish initial_result query_error cec_physical_address_valid
wake_attempts = refl

confirm_power-Result_example : Result time 0 30000 woken
unfolding confirm_power loop first_poll turn send_turn query_turn send_power take_report next_turn
    remaining pause_operation initial_result query_error
confirm_power-Result_example =
    confirm_power-Result mock_bus time mock_bus-Paced 4 0 30000 asleep {r = woken} refl

confirm_power_total_example :
    (r : ControlResult × Tv) × (confirm_power mock_bus 4 0 30000 asleep ≡ some r)
confirm_power_total_example = confirm_power_total mock_bus time mock_bus-Paced 30000 4 0 asleep
