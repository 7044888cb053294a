-- ===== src/Serial/Session/Once.antt =====
-- A request is carried out once: while its result is kept, its id cannot be queued again.
use cec_controller.Common.{subst, ℕ, ◌≡◌, ◌≢◌, sym, ap, ◌∙◌, List, none, some, inl, inr, Text}
use cec_controller.Config.{Config}
use cec_controller.Serial.{Operation}
use cec_controller.Serial.Command.{Device, exec_tv}
use cec_controller.Serial.Command.Laws.{exec_tv-Step}
use cec_controller.Serial.Session.{fresh, Event, Session, session_run}
use cec_controller.Serial.Session.Slots.{New}
use cec_controller.Serial.Session.Invariant.{Inv, operation_of, Queued-New, reached-Inv}

-- From the start of the firmware, whatever commands arrive and however the worker takes and ends
-- requests: when a command `tv` puts a request with an id other than 0 into the empty queue, then
-- no request is queued or held by the worker, and none of the last eight requests that have ended
-- has its id.
pub exec_tv-once :
    (random : ℕ) (loaded : Config) (es : List Event) (d : Device) (argv : List Text) (r : Operation)
    → let s = session_run es (fresh random loaded) in
      s.serial.pending ≡ none
      → ((exec_tv d argv s.serial).1).pending ≡ some r
      → r.id ≢ 0
      → (s.running ≡ none) × New r.id s.ended
unfolding operation_of
exec_tv-once random loaded es d argv r free queued nz =
    elim ((exec_tv-Step d argv s.serial (λ idle. (v.queued idle).0)).1) [
      | inl (pending, busy) ↦ absurd (cc (free, pending, queued))
      | inr (other, h) ↦ (
        (v.queued h.idle).1,
        subst (λ (x : Operation). x.id ≢ 0 → New x.id s.ended)
            (ap (operation_of r) (sym h.pending ∙ queued))
            (Queued-New s ((exec_tv d argv s.serial).1) other v h) nz,
      )
    ]
  where
    s : Session
    s = session_run es (fresh random loaded)

    v : Inv s
    v = reached-Inv random loaded es
