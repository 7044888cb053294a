-- ===== src/Control/Power/Invariant.antt =====
-- What holds at each turn of confirm_power's loop, over a bus that records its calls.
use cec_controller.Common.{
  ℕ, zero, suc, ◌+◌, ◌-◌, ◌≤◌, ◌<◌, ◌≡◌, ◌≢◌, refl, true, false, List, [], ◌∷◌, some, ◌⊎◌, All,
  length, arith, After, loop_inv,
}
use cec_controller.CecId.{opcode_of}
use cec_controller.Control.{
  Bus, ControlResult, Code, PowerQuery, remaining, pause_operation, query_error, initial_result,
  poll_ms, retry_delay_ms, tx_timeout_ms, power_timeout_ms,
}
use cec_controller.Control.Trace.{
  Event, sent, asked, Traced, traced, Paced, requests, Spaced, InBudget, IsPower, Confirmed,
}
use cec_controller.Control.Power.{
  Poll, maximum_attempts, command_message, timed_out, send_power, next_turn, take_report,
  query_turn, send_turn, turn, first_poll, confirm_power,
}

-- The latest call is a query that found the target, and a polling interval has passed since, or
-- the deadline has.
abbrev pub Reported : ℕ → ℕ → ℕ → List Event → Type 0
Reported target deadline now (asked at w PowerQuery.ok status ∷ log) =
    (status ≡ target) × ((at + poll_ms ≤ now) ⊎ (deadline ≤ now))
Reported target deadline now _ = ⊥

-- Where the count of matching reports is not 0 it is 1, and nothing was sent since the report.
abbrev Stable : ℕ → ℕ → ℕ → ℕ → ℕ → List Event → Type 0
Stable zero status target deadline now log = Unit
Stable (suc n) status target deadline now log =
    (n ≡ 0) × (status ≡ target) × Reported target deadline now log

abbrev Next : List ℕ → ℕ → Type 0
Next [] n = Unit
Next (at ∷ times) n = at + retry_delay_ms ≤ n

Reported-later :
    (target deadline now later : ℕ) (log : List Event)
    → now ≤ later
    → Reported target deadline now log
    → Reported target deadline later log
Reported-later target deadline now later [] k h = h
Reported-later target deadline now later (sent at m w r ∷ log) k h = h
Reported-later target deadline now later (asked at w PowerQuery.ok status ∷ log) k h = ground arith
Reported-later target deadline now later (asked at w PowerQuery.no_ack status ∷ log) k h = h
Reported-later target deadline now later (asked at w PowerQuery.tx_timeout status ∷ log) k h = h
Reported-later target deadline now later (asked at w PowerQuery.response_timeout status ∷ log) k h =
    h
Reported-later target deadline now later (asked at w PowerQuery.unavailable status ∷ log) k h = h
Reported-later target deadline now later (asked at w PowerQuery.unsupported status ∷ log) k h = h

Stable-later :
    (stable status target deadline now later : ℕ) (log : List Event)
    → now ≤ later
    → Stable stable status target deadline now log
    → Stable stable status target deadline later log
Stable-later zero status target deadline now later log k h = tt
Stable-later (suc n) status target deadline now later log k (a, b, h) =
    (a, b, Reported-later target deadline now later log k h)

module _ {S : Type 0} (time : S → ℕ) (target deadline : ℕ) where
  pub record Inv (l : Poll (Traced S)) : Type 0 where
    pub counted : l.result.attempts ≡ length (requests l.context.1)
    pub capped : l.result.attempts ≤ maximum_attempts target
    pub spaced : Spaced (requests l.context.1)
    pub next : Next (requests l.context.1) l.next_send
    pub budget : All InBudget l.context.1
    pub powers : All IsPower l.context.1
    pub stable :
        Stable l.stable l.result.power_status target deadline (time l.context.0) l.context.1
    pub unconfirmed : l.result.power_confirmed ≡ false
    pub unannounced : l.result.source_announced ≡ false
    pub unrouted : l.result.routing_confirmed ≡ false

  -- What the caller may rely on.
  pub record Result (r : ControlResult × Traced S) : Type 0 where
    pub counted : r.0.attempts ≡ length (requests r.1.1)
    pub capped : r.0.attempts ≤ maximum_attempts target
    pub spaced : Spaced (requests r.1.1)
    pub budget : All InBudget r.1.1
    pub powers : All IsPower r.1.1
    pub success :
        r.0.code ≡ Code.ok
        → (r.0.power_confirmed ≡ true) × (r.0.power_status ≡ target) × Confirmed target r.1.1
    pub failure : r.0.code ≢ Code.ok → r.0.power_confirmed ≡ false
    pub never_partial : r.0.code ≢ Code.input_unconfirmed
    pub unannounced : r.0.source_announced ≡ false
    pub unrouted : r.0.routing_confirmed ≡ false

  -- The same turn at a later time.
  later-Inv :
      (l : Poll (Traced S)) (c : Traced S)
      → Inv l
      → c.1 ≡ l.context.1
      → time l.context.0 ≤ time c.0
      → Inv (record l { context = c })
  later-Inv l (s, log) v same passed = record {
    counted = rw same v.counted;
    capped = v.capped;
    spaced = rw same v.spaced;
    next = rw same v.next;
    budget = rw same v.budget;
    powers = rw same v.powers;
    stable = rw same (
        Stable-later l.stable l.result.power_status target deadline (time l.context.0) (time s)
          l.context.1 passed v.stable);
    unconfirmed = v.unconfirmed;
    unannounced = v.unannounced;
    unrouted = v.unrouted;
  }

module _ {S : Type 0} (bus : Bus S) (time : S → ℕ) (paced : Paced bus time)
    (address target deadline : ℕ) where
  -- The bus that records its calls, and a state of it when its clock has been read.
  abbrev calls : Bus (Traced S)
  calls = traced bus time

  abbrev read : Traced S → Traced S
  read c = ((bus.now_ms c.0).1, c.1)

  timed_out-Result :
      (l : Poll (Traced S))
      → Inv time target deadline l
      → Result time target deadline (timed_out calls address target deadline l)
  unfolding timed_out
  timed_out-Result l v = ground arith

  remaining_state : (c : Traced S) (cap : ℕ) → (remaining calls c deadline cap).1 ≡ read c
  unfolding remaining
  remaining_state c cap = refl

  remaining_bounds :
      (c : Traced S) (cap : ℕ)
      → let left = (remaining calls c deadline cap).0 in
        (left ≤ cap) × ((left ≡ 0) ⊎ (time c.0 < deadline))
  unfolding remaining
  remaining_bounds c cap = ground (arith, paced.now_reads c.0)

  read-Inv :
      (l : Poll (Traced S))
      → Inv time target deadline l
      → Inv time target deadline (record l { context = read l.context })
  read-Inv l v =
      later-Inv time target deadline l (read l.context) v refl (paced.now_paced l.context.0)

  pub pause_log : (c : Traced S) (d : ℕ) → (pause_operation calls c deadline d).1 ≡ c.1
  unfolding pause_operation remaining
  pause_log c d = ground arith

  pause_passes :
      (c : Traced S) (d : ℕ)
      → d < 4294967296
      → let after = time (pause_operation calls c deadline d).0 in
        (time c.0 + d ≤ after) ⊎ (deadline ≤ after)
  unfolding pause_operation remaining
  pause_passes c d h = ground (
    arith,
    paced.now_reads c.0,
    paced.now_paced c.0,
    paced.delay_paced (read c).0 d,
    paced.delay_paced (read c).0 (deadline - time c.0),
  )

  -- The turn's query has been made; what is made of its answer.
  take_report-Inv :
      (l : Poll (Traced S)) (query : PowerQuery) (status : ℕ) (s : S) (at w : ℕ) (log : List Event)
      → Inv time target deadline l
      → l.context.1 ≡ log
      → time l.context.0 ≤ at
      → at ≤ time s
      → time l.context.0 < deadline
      → InBudget (asked at w query status)
      → After (Inv time target deadline) (Result time target deadline) (
          take_report calls address target deadline l
            (query, status, (s, asked at w query status ∷ log)))
  unfolding take_report next_turn query_error
  take_report-Inv l query status s at w log v hl hn paced_by before fits = ground (
    arith,
    pause_log (s, asked at w query status ∷ log) poll_ms,
    pause_passes (s, asked at w query status ∷ log) poll_ms,
  )

  query_turn-Inv :
      (l : Poll (Traced S))
      → Inv time target deadline l
      → After
          (Inv time target deadline)
          (Result time target deadline)
          (query_turn calls address target deadline l)
  unfolding query_turn
  query_turn-Inv l v =
      let left = remaining calls l.context deadline power_timeout_ms in
      let w = left.0 in
      let s = (read l.context).0 in
      let answer = bus.query_power s address 255 w in
      rw (remaining_state l.context power_timeout_ms) (
        ground (
          arith,
          timed_out-Result (record l { context = read l.context }) (read-Inv l v),
          remaining_bounds l.context power_timeout_ms,
          paced.query_paced s address 255 w,
          paced.now_paced l.context.0,
          take_report-Inv l answer.0 answer.1 answer.2 (time s) w l.context.1 v refl,
        ))

  send_power-Inv :
      (l : Poll (Traced S))
      → Inv time target deadline l
      → l.result.attempts < maximum_attempts target
      → l.next_send ≤ time l.context.0
      → l.result.power_status ≢ target
      → Inv time target deadline (send_power calls address target deadline l)
  unfolding send_power opcode_of
  send_power-Inv l v room due away =
      let left = remaining calls l.context deadline tx_timeout_ms in
      let s = (read l.context).0 in
      let m = command_message address target in
      let t = (bus.send s m left.0).1 in
      rw (remaining_state l.context tx_timeout_ms) (
        ground (
          arith,
          paced.send_paced s m left.0,
          paced.now_paced l.context.0,
          paced.now_paced t,
          paced.now_reads t,
          remaining_bounds l.context tx_timeout_ms,
        ))

  send_turn-Inv :
      (l : Poll (Traced S))
      → Inv time target deadline l
      → l.result.attempts < maximum_attempts target
      → l.next_send ≤ time l.context.0
      → l.result.power_status ≢ target
      → After
          (Inv time target deadline)
          (Result time target deadline)
          (send_turn calls address target deadline l)
  unfolding send_turn
  send_turn-Inv l v room due away =
      let l' = send_power calls address target deadline l in
      let v' = send_power-Inv l v room due away in ground (arith, v', query_turn-Inv l' v')

  -- A turn keeps the invariant, or ends with a result that the caller may rely on.
  pub turn-Inv :
      (l : Poll (Traced S))
      → Inv time target deadline l
      → After
          (Inv time target deadline)
          (Result time target deadline)
          (turn calls address target deadline l)
  unfolding turn
  turn-Inv l v =
      let l1 = record l { context = read l.context } in
      let v1 = read-Inv l v in
      let l2 = record l { context = read (read l.context) } in
      let v2 = read-Inv l1 v1 in
      rw (remaining_state l.context 1) (
        ground (
          arith,
          timed_out-Result l1 v1,
          query_turn-Inv l2 v2,
          send_turn-Inv l2 v2,
          paced.now_reads l1.context.0,
          paced.now_paced l1.context.0,
        ))

  pub first_poll-Inv :
      (s : S) → Inv time target deadline (first_poll calls address target deadline (s, []))
  unfolding first_poll initial_result
  first_poll-Inv s = ground arith

  -- On a bus whose time does not run backwards, which may pass at any call and at any reading of the
  -- clock, and whose delays take their time: a result of confirm_power counts the power requests, of
  -- which there are no more than its maximum; they are the retry delay apart. Nothing else is called
  -- but queries for the power, and no call is given more time than its cap, a query always some. It
  -- confirms the power exactly on success, and then the last two calls are queries, a polling interval
  -- apart, that both found the target.
  pub confirm_power-Result :
      (s : S) {r : ControlResult × Traced S}
      → confirm_power calls address target deadline (s, []) ≡ some r
      → Result time target deadline r
  unfolding confirm_power
  confirm_power-Result s e =
      loop_inv (Inv time target deadline) (Result time target deadline) _ turn-Inv _ _
        (first_poll-Inv s) e
