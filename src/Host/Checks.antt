-- ===== src/Host/Checks.antt =====
-- The checks of a reply whose fields have been read (host/src/protocol.c, the end of
-- cecctl_parse_reply).
use cec_controller.Common.{
  ℕ, Bool, true, not, ◌&&◌, ◌||◌, List, [], ◌∷◌, leb, ◌==◌, if◌then◌else◌, Text, codes, same_text,
}
use cec_controller.Host.Reply.{Reply, Key, key_index, known}

abbrev pub saw : Key → List Key → Bool
saw key seen = known (key_index key) seen

-- The names of the states that a reply can have.
abbrev pub state_name : ℕ → Text
state_name value =
    if value == 0
    then codes "on"
    else if value == 1
    then codes "standby"
    else if value == 2
    then codes "transitioning_on"
    else codes "transitioning_standby"

abbrev all_seen : List Key → List Key → Bool
all_seen [] seen = true
all_seen (key ∷ keys) seen = saw key seen && all_seen keys seen

abbrev pub is : Text → Text → Bool
is text word = same_text text word

abbrev between : ℕ → ℕ → ℕ → Bool
between low high n = leb low n && leb n high

-- The checks of the reply to the command `protocol`.
unfoldable pub protocol_good : Reply → List Key → Bool
protocol_good r seen =
    r.ok
    && (all_seen
          (Key.firmware ∷ Key.on_ms ∷ Key.standby_ms ∷ Key.status_ms ∷ Key.gpio ∷ Key.ready
            ∷ Key.busy ∷ [])
          seen
        && (between 1000 30000 r.on_ms
            && (between 1000 10000 r.standby_ms
                && (between 1000 3000 r.status_ms
                    && (leb r.gpio 29 && (leb r.ready 1 && leb r.busy 1))))))

-- The checks of a success of a power command.
unfoldable pub success_good : Text → Reply → List Key → Bool
success_good command r seen =
    all_seen
      (Key.power ∷ Key.value ∷ Key.verified ∷ Key.source ∷ Key.routing ∷ Key.attempts
        ∷ Key.elapsed_ms ∷ Key.phase ∷ [])
      seen
    && (is r.code (codes "ok")
        && (leb r.value 3
            && (is r.power (state_name r.value)
                && (r.verified == 1
                    && ((not (is command (codes "on"))
                          || (r.value == 0
                              && (is r.source (codes "announced")
                                  && is r.routing (codes "confirmed"))))
                        && (not (is command (codes "standby")) || r.value == 1))))))

abbrev pub power_good : Reply → List Key → Bool
power_good r seen =
    not (saw Key.power seen)
    || (saw Key.value seen
        && ((leb r.value 3 || r.value == 255)
            && is r.power (if r.value == 255 then codes "unknown" else state_name r.value)))

abbrev pub input_good : Reply → List Key → Bool
input_good r seen =
    not (is r.code (codes "input_unconfirmed"))
    || (not (r.verified == 0)
        && (is r.power (codes "on") && (saw Key.source seen && saw Key.routing seen)))

abbrev pub is_power_command : Text → Bool
is_power_command command =
    is command (codes "on") || (is command (codes "standby") || is command (codes "status"))

-- The checks of every other reply.
unfoldable pub other_good : Text → Reply → List Key → Bool
unfolding success_good
other_good command r seen =
    saw Key.id seen
    && (saw Key.code seen
        && ((not (r.ok && is_power_command command) || success_good command r seen)
            && ((r.ok || not (is r.code (codes "ok")))
                && (power_good r seen
                    && (input_good r seen
                        && ((not (saw Key.source seen)
                              || (is r.source (codes "none") || is r.source (codes "announced")))
                            && ((not (saw Key.routing seen)
                                  || (is r.routing (codes "confirmed")
                                      || is r.routing (codes "unconfirmed")))
                                && (leb r.verified 1
                                    && (leb r.attempts 3 && leb r.elapsed_ms 30050)))))))))

unfoldable pub reply_good : Text → Reply × List Key → Bool
unfolding protocol_good other_good
reply_good command (r, seen) =
    saw Key.command seen
    && (saw Key.session seen
        && (is r.command command
            && (if is command (codes "protocol")
                then protocol_good r seen
                else other_good command r seen)))
