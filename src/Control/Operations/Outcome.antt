-- ===== src/Control/Operations/Outcome.antt =====
-- What the results of cec_control_on and cec_control_standby mean.
use cec_controller.Common.{ℕ, ◌≤◌, ◌≡◌, ◌≢◌, true, false, List, [], ◌∷◌, ◌⊎◌, Bool, All, length}
use cec_controller.Control.{Bus, ControlResult, Code}
use cec_controller.Control.Trace.{Event, sent, asked, Traced, traced, Confirmed, IsPower, requests}
use cec_controller.Control.Operations.{report_message, active_message}

-- The calls of `activate` on top of those of the wake: sends of the two announcements only.
abbrev pub IsAnnouncement : ℕ → ℕ → ℕ → Event → Type 0
IsAnnouncement address physical type (sent at m w r) =
    (m ≡ report_message address physical type) ⊎ (m ≡ active_message address physical)
IsAnnouncement address physical type (asked at w q x) = ⊥

-- The calls of an activation stand above a log of queries and power requests alone, which ends in a
-- confirmation.
abbrev pub Announced : ℕ → ℕ → ℕ → List Event → Type 0
Announced address physical type [] = ⊥
Announced address physical type (e ∷ log) =
    (Confirmed 0 (e ∷ log) × All IsPower (e ∷ log))
    ⊎ (IsAnnouncement address physical type e × Announced address physical type log)

-- The result of a wake, as the host's client relies on it.
pub record WakeResult (address physical type : ℕ) (r : ControlResult × List Event) : Type 0 where
  -- Full success claims all of its evidence.
  pub success :
      r.0.code ≡ Code.ok
      → (r.0.power_confirmed ≡ true)
        × (r.0.power_status ≡ 0)
        × (r.0.source_announced ≡ true)
        × (r.0.routing_confirmed ≡ true)
  -- Partial success claims that the television is on.
  pub partial :
      r.0.code ≡ Code.input_unconfirmed
      → (r.0.power_confirmed ≡ true) × (r.0.power_status ≡ 0) × (r.0.routing_confirmed ≡ false)
  -- Any other result claims nothing.
  pub failure :
      r.0.code ≢ Code.ok
      → r.0.code ≢ Code.input_unconfirmed
      → (r.0.power_confirmed ≡ false)
        × (r.0.source_announced ≡ false)
        × (r.0.routing_confirmed ≡ false)
  -- Confirmed power comes before any announcement of the source, and without it there is none.
  pub ordered : r.0.power_confirmed ≡ true → Announced address physical type r.1
  pub silent : r.0.power_confirmed ≡ false → All IsPower r.1
  -- The requests for power are counted, and three at most.
  pub counted : r.0.attempts ≡ length (requests r.1)
  pub capped : length (requests r.1) ≤ 3

module _ {S : Type 0} (bus : Bus S) (time : S → ℕ) (address physical type deadline : ℕ) where
  abbrev calls : Bus (Traced S)
  calls = traced bus time

  -- What the announcements start from, and keep.
  abbrev Awake : ControlResult → List Event → Type 0
  Awake r log =
      (r.power_confirmed ≡ true)
      × (r.power_status ≡ 0)
      × (r.routing_confirmed ≡ false)
      × (r.attempts ≡ length (requests log))
      × (length (requests log) ≤ 3)
      × Announced address physical type log

  abbrev Woken : ControlResult × Traced S → Type 0
  Woken o = WakeResult address physical type (o.0, o.1.1)
