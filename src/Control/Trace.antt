-- ===== src/Control/Trace.antt =====
-- A bus that records what the power operations ask of it, and what is said of such a record. The
-- code has no counterpart: this is how the theorems speak about the order of sends and queries.
use cec_controller.Common.{
  ℕ, ◌+◌, ◌≤◌, ◌<◌, ◌≡◌, Bool, List, [], ◌∷◌, Option, none, some, ◌==◌, ◌||◌, ◌⊎◌, if◌then◌else◌,
}
use cec_controller.CecId.{opcode_of, image_view_on, standby}
use cec_controller.Message.{Message, TxResult, opcode}
use cec_controller.Control.{
  Bus, ControlBus, PowerQuery, tx_timeout_ms, power_timeout_ms, poll_ms, retry_delay_ms,
}

-- A call of the bus: the time before it, its arguments and its result.
pub data Event : Type 0 where
  sent : ℕ → Message → ℕ → TxResult → Event
  asked : ℕ → ℕ → PowerQuery → ℕ → Event

-- The state of a bus with the calls so far, the latest first.
abbrev pub Traced : Type 0 → Type 0
Traced S = S × List Event

abbrev pub traced : {S : Type 0} → Bus S → (S → ℕ) → Bus (Traced S)
traced {S} bus time = record {
  send = λ c m t. let r = bus.send c.0 m t in (r.0, (r.1, sent (time c.0) m t r.0 ∷ c.1));
  delay = λ c d. (bus.delay c.0 d, c.1);
  query_power = λ c a i t.
      let r = bus.query_power c.0 a i t in (r.0, r.1, (r.2, asked (time c.0) t r.0 r.1 ∷ c.1));
  now_ms = λ c. let r = bus.now_ms c.0 in (r.0, (r.1, c.1));
  routing_confirmed = trace_route bus.routing_confirmed;
  deadline_ms = bus.deadline_ms;
}
  where
    trace_route : Option (S → ℕ → Bool) → Option (Traced S → ℕ → Bool)
    trace_route none = none
    trace_route (some f) = some (λ c p. f c.0 p)

-- A bus as the operations take it, every callback in place.
abbrev pub provided : {S : Type 0} → Bus S → ControlBus S
provided bus = record {
  send = some bus.send;
  delay = some bus.delay;
  query_power = some bus.query_power;
  now_ms = some bus.now_ms;
  routing_confirmed = bus.routing_confirmed;
  deadline_ms = bus.deadline_ms;
}

-- The time of a bus, which does not run backwards over a call. A reading of the clock gives the time
-- at its start, and some time may pass until it is back. A delay takes its time.
pub record Paced {S : Type 0} (bus : Bus S) (time : S → ℕ) : Type 0 where
  pub now_reads : (s : S) → (bus.now_ms s).0 ≡ time s
  pub now_paced : (s : S) → time s ≤ time (bus.now_ms s).1
  pub send_paced : (s : S) (m : Message) (t : ℕ) → time s ≤ time (bus.send s m t).1
  pub query_paced : (s : S) (a i t : ℕ) → time s ≤ time (bus.query_power s a i t).2
  pub delay_paced : (s : S) (d : ℕ) → time s + d ≤ time (bus.delay s d)

-- The times of the power requests, the latest first.
abbrev pub requests : List Event → List ℕ
requests [] = []
requests (asked at w q x ∷ log) = requests log
requests (sent at m w r ∷ log) =
    let rest = requests log in
    if opcode m == opcode_of image_view_on || opcode m == opcode_of standby then at ∷ rest else rest

-- Two requests in a row are at least the retry delay apart.
abbrev pub Spaced : List ℕ → Type 0
Spaced [] = Unit
Spaced (at ∷ []) = Unit
Spaced (at ∷ before ∷ times) = (before + retry_delay_ms ≤ at) × Spaced (before ∷ times)

-- A call is given at most the operation's cap, and a query some time.
abbrev pub InBudget : Event → Type 0
InBudget (sent at m w r) = w ≤ tx_timeout_ms
InBudget (asked at w q x) = (0 < w) × (w ≤ power_timeout_ms)

-- A call for the power: a query, or one of the two requests.
abbrev pub IsPower : Event → Type 0
IsPower (sent at m w r) = (opcode m ≡ opcode_of image_view_on) ⊎ (opcode m ≡ opcode_of standby)
IsPower (asked at w q x) = Unit

-- The last two calls are queries, a polling interval apart, that both found the target.
abbrev pub Confirmed : ℕ → List Event → Type 0
Confirmed target (asked t2 w2 PowerQuery.ok b ∷ asked t1 w1 PowerQuery.ok a ∷ rest) =
    (a ≡ target) × (b ≡ target) × (t1 + poll_ms ≤ t2)
Confirmed target _ = ⊥
