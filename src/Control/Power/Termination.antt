-- ===== src/Control/Power/Termination.antt =====
-- confirm_power returns.
use cec_controller.Common.{
  ℕ, suc, ◌-◌, ◌≤◌, ◌<◌, ◌≡◌, ◌≢◌, refl, Bool, true, false, if◌then◌else◌, ◌==◌, some, ◌⊎◌, arith,
  Outcome, After, loop_total,
}
use cec_controller.Control.{
  Bus, ControlResult, PowerQuery, remaining, pause_operation, poll_ms, tx_timeout_ms,
  power_timeout_ms,
}
use cec_controller.Control.Trace.{Paced}
use cec_controller.Control.Power.{
  Poll, command_message, send_power, next_turn, take_report, query_turn, send_turn, turn,
  first_poll, confirm_power,
}

ne_zero : (n : ℕ) → (n == 0) ≡ false → n ≢ 0
ne_zero n h = ground arith

module _ {S : Type 0} (bus : Bus S) (time : S → ℕ) (paced : Paced bus time) (deadline : ℕ) where
  -- The time that is left of the deadline.
  abbrev pub left : S → ℕ
  left s = deadline - time s

  abbrev after : S → S
  after s = (bus.now_ms s).1

  remaining_state : (s : S) (cap : ℕ) → (remaining bus s deadline cap).1 ≡ after s
  unfolding remaining
  remaining_state s cap = refl

  remaining_ne_zero : (s : S) (cap : ℕ) → (remaining bus s deadline cap).0 ≢ 0 → time s < deadline
  unfolding remaining
  remaining_ne_zero s cap h = ground (arith, paced.now_reads s)

  pub pause_falls :
      (s : S)
      → (left (pause_operation bus s deadline poll_ms) ≡ 0)
        ⊎ (left (pause_operation bus s deadline poll_ms) < left s)
  unfolding pause_operation remaining
  pause_falls s = ground (
    arith,
    paced.now_reads s,
    paced.now_paced s,
    paced.delay_paced (after s) poll_ms,
    paced.delay_paced (after s) (deadline - time s),
  )

  module _ (address target : ℕ) where
    -- A turn that goes on has used up some of the time that was left.
    abbrev Falls : ℕ → Outcome (Poll S) (ControlResult × S) → Type 0
    Falls before = After (λ l. Unit {0} × (left l.context < before)) (λ r. Unit {0})

    take_report-Falls :
        (l : Poll S) (answer : PowerQuery × ℕ × S) (before : ℕ)
        → left answer.2 ≤ before
        → 0 < before
        → Falls before (take_report bus address target deadline l answer)
    unfolding take_report next_turn
    take_report-Falls l (query, status, s) before h k = ground (arith, pause_falls s)

    query_turn-Falls :
        (l : Poll S) (before : ℕ)
        → left l.context ≤ before
        → 0 < before
        → Falls before (query_turn bus address target deadline l)
    unfolding query_turn
    query_turn-Falls l before h k =
        let w = (remaining bus l.context deadline power_timeout_ms).0 in
        rw (remaining_state l.context power_timeout_ms) (
          ground (
            arith,
            paced.now_paced l.context,
            paced.query_paced (after l.context) address 255 w,
            take_report-Falls l (bus.query_power (after l.context) address 255 w) before,
          ))

    send_power-late :
        (l : Poll S) → time l.context ≤ time (send_power bus address target deadline l).context
    unfolding send_power
    send_power-late l =
        let w = (remaining bus l.context deadline tx_timeout_ms).0 in
        let m = command_message address target in
        rw (remaining_state l.context tx_timeout_ms) (
          ground (
            arith,
            paced.now_paced l.context,
            paced.send_paced (after l.context) m w,
            paced.now_paced (bus.send (after l.context) m w).1,
          ))

    send_turn-Falls :
        (l : Poll S) (before : ℕ)
        → left l.context ≤ before
        → 0 < before
        → Falls before (send_turn bus address target deadline l)
    unfolding send_turn
    send_turn-Falls l before h k =
        let sent = send_power bus address target deadline l in
        let passed = send_power-late l in
        ground (arith, query_turn-Falls sent before (omega (arith, h, passed)))

    choice-Falls :
        (before : ℕ) (b : Bool) (x y : Outcome (Poll S) (ControlResult × S))
        → (b ≡ true → Falls before x)
        → (b ≡ false → Falls before y)
        → Falls before (if b then x else y)
    choice-Falls before true x y p q = p refl
    choice-Falls before false x y p q = q refl

    turn-Falls : (l : Poll S) → Falls (left l.context) (turn bus address target deadline l)
    unfolding turn remaining
    turn-Falls l =
        let l' = record l { context = after (after l.context) } in
        let passed = paced.now_paced l.context in
        let passed' = paced.now_paced (after l.context) in
        let less : left (after (after l.context)) ≤ left l.context =
          omega (arith, passed, passed') in
        let early : ((remaining bus l.context deadline 1).0 == 0) ≡ false → 0 < left l.context =
          λ h. omega (arith, remaining_ne_zero l.context 1 (ne_zero _ h)) in
        choice-Falls (left l.context) ((remaining bus l.context deadline 1).0 == 0) _ _ (λ _. tt)
          (λ some_left.
            choice-Falls (left l.context) _ _ _
              (λ _. send_turn-Falls l' (left l.context) less (early some_left))
              (λ _. query_turn-Falls l' (left l.context) less (early some_left)))

    -- On a bus whose time does not run backwards, which may pass at any call and at any reading of the
    -- clock, and whose delays take their time: confirm_power returns, whatever the television answers.
    -- The fuel is enough.
    pub confirm_power_total :
        (s : S) → (r : ControlResult × S) × (confirm_power bus address target deadline s ≡ some r)
    unfolding confirm_power first_poll
    confirm_power_total s =
        let (r, e, _) =
          loop_total (λ l. Unit {0}) (λ r. Unit {0}) (turn bus address target deadline)
            (λ l. left l.context) (λ l _. turn-Falls l) (suc deadline)
            (first_poll bus address target deadline s) (omega arith) tt in
        (r, e)
