-- ===== src/Serial/Worker/Ends.antt =====
-- The wait of the worker and the operations that it runs come to an end (src/usb-cdc.c,
-- operation_worker).
use cec_controller.Common.{
  ℕ, suc, ◌+◌, ◌-◌, ◌*◌, ◌/◌, ◌≤◌, ◌<◌, ◌≡◌, Bool, true, false, Option, some, if◌then◌else◌, arith,
  Returns, loop_total, After, ap, codes, same_text,
}
use cec_controller.Message.{Message}
use cec_controller.Control.{Bus, available, operation_deadline, on_timeout_ms, standby_timeout_ms}
use cec_controller.Control.Trace.{Paced, provided}
use cec_controller.Control.Power.Termination.{confirm_power_total}
use cec_controller.Control.Operations.{wake, rest, cec_control_on, cec_control_standby}
use cec_controller.Task.{Task, cec_set_source_active}
use cec_controller.Serial.{Operation}
use cec_controller.Serial.Bus.{
  Link, Context, control_send, control_delay, control_query, control_bus, wait_turn, wait_ready,
  run_operation,
}

-- The time of a link, which does not run backwards. A reading of the clock gives the time at its start,
-- and some time may pass until it is back. A delay takes its time.
pub record PacedLink {S : Type 0} (l : Link S) (time : S → ℕ) : Type 0 where
  pub reads : (s : S) → (l.time_us s).0 ≡ time s
  pub reading : (s : S) → time s ≤ time (l.time_us s).1
  pub send : (s : S) (m : Message) (t : ℕ) → time s ≤ time (l.send_msg_sync s m t).1
  pub query : (s : S) (t : ℕ) → time s ≤ time (l.query_power_status s t).2
  pub delay : (s : S) (d : ℕ) → time s + d * 1000 ≤ time (l.delay s d)
  pub write : (s : S) (t : Task) → time (l.with_task s t) ≡ time s

-- There is a result.
abbrev pub Ends : {A : Type 0} → Option A → Type 0
Ends = Returns (λ a. Unit)

if-Ends :
    {A : Type 0} (test : Bool) (a b : Option A) → Ends a → Ends b → Ends (if test then a else b)
if-Ends true a b x y = x
if-Ends false a b x y = y

module _ {S : Type 0} (bus : Bus S) (time : S → ℕ) (paced : Paced bus time) where
  wake-Ends : (address physical type : ℕ) (s : S) → Ends (wake bus address physical type s)
  unfolding wake
  wake-Ends address physical type s =
      let deadline = operation_deadline bus (bus.now_ms s).1 on_timeout_ms in
      let (c, e) = confirm_power_total bus time paced deadline.0 address 0 deadline.1 in
      rw (e, wake) tt

  rest-Ends : (address : ℕ) (s : S) → Ends (rest bus address s)
  unfolding rest
  rest-Ends address s =
      let deadline = operation_deadline bus (bus.now_ms s).1 standby_timeout_ms in
      let (c, e) = confirm_power_total bus time paced deadline.0 address 1 deadline.1 in
      rw (e, rest) tt

  on-Ends :
      (address physical type : ℕ) (s : S)
      → Ends (cec_control_on (some (provided bus)) address physical type s)
  unfolding cec_control_on available
  on-Ends address physical type s = ground (arith, wake-Ends address physical type s)

  standby-Ends : (address : ℕ) (s : S) → Ends (cec_control_standby (some (provided bus)) address s)
  unfolding cec_control_standby available
  standby-Ends address s = ground (arith, rest-Ends address s)

module _ {S : Type 0} (l : Link S) (time : S → ℕ) (paced : PacedLink l time) where
  later : (m n : ℕ) → m ≤ n → m / 1000 ≤ n / 1000
  later m n h = omega (arith, h)

  longer : (m n d : ℕ) → m + d * 1000 ≤ n → m / 1000 + d ≤ n / 1000
  longer m n d h = omega (arith, h)

  -- The time of the bus, in milliseconds.
  abbrev bus_time : Context S → ℕ
  bus_time c = time c.link / 1000

  bus-Paced : (deadline : ℕ) → Paced (control_bus l deadline) bus_time
  unfolding control_bus control_send control_query control_delay
  bus-Paced deadline = record {
    now_reads = λ c. ap (λ t. t / 1000) (paced.reads c.link);
    now_paced = λ c. later (time c.link) _ (paced.reading c.link);
    send_paced = λ c m t. later (time c.link) _ (
        ground (
          arith,
          paced.send c.link m t,
          paced.send (l.with_task c.link (cec_set_source_active true (l.task c.link))) m t,
          paced.write c.link (cec_set_source_active true (l.task c.link)),
        ));
    query_paced = λ c a i t. later (time c.link) _ (ground (arith, paced.query c.link t));
    delay_paced = λ c d. longer (time c.link) _ d (ground (arith, paced.delay c.link d));
  }

  -- What is left of the limit in the wait.
  abbrev wait_left : ℕ → S → ℕ
  wait_left deadline s = deadline - time s / 1000

  wait_falls :
      (deadline : ℕ) (s : S)
      → time s / 1000 + 50 < deadline
      → wait_left deadline (l.delay (l.time_us s).1 50) < wait_left deadline s
  wait_falls deadline s early = omega (
    arith,
    early,
    longer (time s) (time (l.delay (l.time_us s).1 50)) 50
        (omega (arith, paced.reading s, paced.delay (l.time_us s).1 50)),
  )

  pub wait_total :
      (deadline : ℕ) (s : S) → (s' : S) × (wait_ready l deadline s ≡ some s') × Unit {0}
  unfolding wait_ready wait_turn
  wait_total deadline s =
      loop_total (λ s. Unit {0}) (λ s. Unit {0}) (wait_turn l deadline) (wait_left deadline) turn
        (suc deadline) s (omega arith) tt
    where
      turn :
          (s : S)
          → Unit {0}
          → After
              (λ s'. Unit {0} × (wait_left deadline s' < wait_left deadline s))
              (λ s'. Unit {0})
              (wait_turn l deadline s)
      turn s u = ground (arith, paced.reads s, wait_falls deadline s)

  pub run-Ends :
      (request : Operation) (type deadline : ℕ) (c : Context S)
      → Ends (run_operation l request type deadline c)
  unfolding run_operation
  run-Ends request type deadline c =
      if-Ends (same_text request.command (codes "on")) _ _
        (on-Ends (control_bus l deadline) bus_time (bus-Paced deadline) _ _ _ _)
        (if-Ends (same_text request.command (codes "standby")) _ _
          (standby-Ends (control_bus l deadline) bus_time (bus-Paced deadline) _ _) tt)
