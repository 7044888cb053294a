-- ===== src/Host/Agreement/Checks.antt =====
-- A sound result passes the checks of the host (host/src/protocol.c, the end of cecctl_parse_reply).
use cec_controller.Common.{
  ℕ, ◌≤◌, ◌≡◌, refl, Bool, true, false, not, ◌&&◌, ◌||◌, leb, if◌then◌else◌, Text, codes, same_text,
  same_text_refl, same_text_eq, inl, inr, arith, Bool-cases,
}
use cec_controller.Control.{Code, ControlResult}
use cec_controller.Control.Names.{cec_control_result_name, cec_control_power_name}
use cec_controller.Serial.{Operation}
use cec_controller.Serial.Reply.{is_ok}
use cec_controller.Host.Reply.{known, key_index}
use cec_controller.Host.Checks.{
  state_name, reply_good, other_good, success_good, power_good, input_good, is_power_command,
}
use cec_controller.Host.Agreement.Names.{
  IsCommand, Sound, reply_of, all_keys, source_text, routing_text,
}

is_input : Code → Bool
is_input Code.input_unconfirmed = true
is_input _ = false

ok_name : (c : Code) → same_text (cec_control_result_name c) (codes "ok") ≡ is_ok c
unfolding same_text cec_control_result_name
ok_name c = ground arith

input_name :
    (c : Code) → same_text (cec_control_result_name c) (codes "input_unconfirmed") ≡ is_input c
unfolding same_text cec_control_result_name is_input
input_name c = ground arith

is_ok-eq : (c : Code) → is_ok c ≡ true → c ≡ Code.ok
is_ok-eq c h = ground arith

is_input-eq : (c : Code) → is_input c ≡ true → c ≡ Code.input_unconfirmed
unfolding is_input
is_input-eq c h = ground arith

state-power : (n : ℕ) → n ≤ 3 → same_text (cec_control_power_name n) (state_name n) ≡ true
unfolding same_text cec_control_power_name
state-power n h = ground arith

on-power : same_text (cec_control_power_name 0) (codes "on") ≡ true
unfolding same_text cec_control_power_name
on-power = refl

unknown-power : same_text (cec_control_power_name 255) (codes "unknown") ≡ true
unfolding same_text cec_control_power_name
unknown-power = refl

source-checked :
    (b : Bool)
    → same_text (source_text b) (codes "none") || same_text (source_text b) (codes "announced")
      ≡ true
unfolding same_text
source-checked b = ground arith

routing-checked :
    (b : Bool)
    → same_text (routing_text b) (codes "confirmed")
        || same_text (routing_text b) (codes "unconfirmed")
      ≡ true
unfolding same_text
routing-checked b = ground arith

no-protocol : (t : Text) → IsCommand t → same_text t (codes "protocol") ≡ false
unfolding same_text
no-protocol t (inl e) = rw e refl
no-protocol t (inr (inl e)) = rw e refl
no-protocol t (inr (inr e)) = rw e refl

announced-source : same_text (source_text true) (codes "announced") ≡ true
unfolding same_text
announced-source = refl

confirmed-routing : same_text (routing_text true) (codes "confirmed") ≡ true
unfolding same_text
confirmed-routing = refl

both : {a b : Bool} → a ≡ true → b ≡ true → (a && b) ≡ true
both {a} {b} h k = rw (h, k) refl

either : (a : Bool) {b : Bool} → b ≡ true → (a || b) ≡ true
either true h = refl
either false h = h

flag_small : (b : Bool) → leb (if b then 1 else 0) 1 ≡ true
flag_small true = refl
flag_small false = refl

small_passes : {m n : ℕ} → m ≤ n → leb m n ≡ true
small_passes h = ground (arith, h)

failure_code :
    (c : Code) → is_ok c || not (same_text (cec_control_result_name c) (codes "ok")) ≡ true
failure_code c = rw (ok_name c) (ground arith)

module _ (session : ℕ) (request : Operation) (r : ControlResult) (v : Sound request r) where
  reply-success :
      is_ok r.code ≡ true
      → success_good request.command (reply_of session request r) all_keys ≡ true
  unfolding success_good known key_index
  reply-success h =
      let good = v.success (is_ok-eq r.code h) in
      rw (ok_name r.code, h, state-power r.power_status good.1, good.0)
        (ground (arith, good, on, standby))
    where
      on :
          same_text request.command (codes "on") ≡ true
          → (r.power_status ≡ 0)
            × (same_text (source_text r.source_announced) (codes "announced") ≡ true)
            × (same_text (routing_text r.routing_confirmed) (codes "confirmed") ≡ true)
      on e =
          let all =
            v.success_on (is_ok-eq r.code h) (same_text_eq request.command (codes "on") e) in
          (all.0, rw (all.1) announced-source, rw (all.2) confirmed-routing)

      standby : same_text request.command (codes "standby") ≡ true → r.power_status ≡ 1
      standby e =
          v.success_standby (is_ok-eq r.code h) (same_text_eq request.command (codes "standby") e)

  reply-power : power_good (reply_of session request r) all_keys ≡ true
  unfolding known key_index
  reply-power = elim v.status [
    | inl small ↦ ground (arith, state-power r.power_status small)
    | inr unknown ↦ rw (unknown, unknown-power) refl
  ]

  reply-input : input_good (reply_of session request r) all_keys ≡ true
  unfolding known key_index
  reply-input = elim (Bool-cases (is_input r.code)) [
    | inl input ↦
        let all = v.input (is_input-eq r.code input) in
        rw (input_name r.code, input, all.0, all.1, on-power) refl
    | inr other ↦ rw (input_name r.code, other) refl
  ]

  success_wanted :
      not (is_ok r.code && is_power_command request.command)
        || success_good request.command (reply_of session request r) all_keys
      ≡ true
  success_wanted = elim (Bool-cases (is_ok r.code)) [
    | inl good ↦
        either (not (is_ok r.code && is_power_command request.command)) (reply-success good)
    | inr bad ↦ rw bad refl
  ]

  other-good : other_good request.command (reply_of session request r) all_keys ≡ true
  unfolding other_good known key_index
  other-good = both success_wanted (
      both (failure_code r.code) (
        both reply-power (
          both reply-input (
            both (source-checked r.source_announced) (
              both (routing-checked r.routing_confirmed) (
                both (flag_small r.power_confirmed)
                  (both (small_passes v.attempts) (small_passes v.elapsed))))))))

  pub reply-good : reply_good request.command (reply_of session request r, all_keys) ≡ true
  unfolding reply_good known key_index
  reply-good =
      both (same_text_refl request.command) (rw (no-protocol request.command v.known) other-good)
