-- ===== src/Host/Run/Success.antt =====
-- What a success that the host takes says about the television (host/src/protocol.c,
-- host/src/main.c).
use cec_controller.Common.{
  ℕ, ◌≤◌, ◌≡◌, refl, Bool, true, false, not, ◌&&◌, ◌||◌, if◌then◌else◌, List, leb, leb→le, ◌==◌,
  Text, codes, same_text, same_text_eq, arith,
}
use cec_controller.Host.Reply.{Reply, Key}
use cec_controller.Host.Checks.{
  reply_good, protocol_good, other_good, success_good, state_name, is, saw, is_power_command,
}
use cec_controller.Host.Run.{Command, name_of}

left : (p q : Bool) → (p && q) ≡ true → p ≡ true
left true q h = refl
left false q h = h

right : (p q : Bool) → (p && q) ≡ true → q ≡ true
right true q h = h
right false q h = ground arith

implied : (p q : Bool) → (not p || q) ≡ true → p ≡ true → q ≡ true
implied true q h e = h
implied false q h e = ground arith

-- What the exit status 0 says: the controller has read the state of the television, and for `on` also
-- announced the source, with the route to it confirmed.
pub record IsSuccess (command : Text) (r : Reply) : Type 0 where
  pub code_ok : is r.code (codes "ok") ≡ true
  pub value_known : r.value ≤ 3
  pub verified : r.verified ≡ 1
  pub turned_on : is command (codes "on") ≡ true → r.value ≡ 0
  pub announced : is command (codes "on") ≡ true → r.source ≡ codes "announced"
  pub confirmed : is command (codes "on") ≡ true → r.routing ≡ codes "confirmed"
  pub turned_off : is command (codes "standby") ≡ true → r.value ≡ 1

other_good-success :
    (command : Text) (r : Reply) (seen : List Key)
    → is_power_command command ≡ true
    → r.ok ≡ true
    → other_good command r seen ≡ true
    → success_good command r seen ≡ true
unfolding other_good
other_good-success command r seen power ok h =
    implied (r.ok && is_power_command command) (success_good command r seen)
      (left _ _ (right _ _ (right _ _ h))) (rw (ok, power) refl)

equal : (a b : ℕ) → (a == b) ≡ true → a ≡ b
equal a b h = ground arith

-- The tests of a success, one by one.
tests_one_by_one :
    (all code value power verified on on_value source routing standby off : Bool)
    → (all
        && (code
            && (value
                && (power
                    && (verified
                        && ((not on || (on_value && (source && routing)))
                            && (not standby || off)))))))
      ≡ true
    → (code ≡ true)
      × (value ≡ true)
      × (verified ≡ true)
      × (on ≡ true → (on_value ≡ true) × (source ≡ true) × (routing ≡ true))
      × (standby ≡ true → off ≡ true)
tests_one_by_one all code value power verified on on_value source routing standby off h =
    let a = right all _ h in
    let b = right code _ a in
    let c = right power _ (right value _ b) in
    let d = right verified _ c in
    (
      left code _ a,
      left value _ b,
      left verified _ c,
      λ e.
          let f = implied on _ (left _ _ d) e in
          (
            left on_value _ f,
            left source _ (right on_value _ f),
            right source _ (right on_value _ f),
          ),
      λ e. implied standby off (right _ _ d) e,
    )

success_good-IsSuccess :
    (command : Text) (r : Reply) (seen : List Key)
    → success_good command r seen ≡ true
    → IsSuccess command r
unfolding success_good
success_good-IsSuccess command r seen h =
    let (code, value, verified, on, standby) =
      tests_one_by_one _ (is r.code (codes "ok")) (leb r.value 3) (is r.power (state_name r.value))
        (r.verified == 1) (is command (codes "on")) (r.value == 0) (is r.source (codes "announced"))
        (is r.routing (codes "confirmed")) (is command (codes "standby")) (r.value == 1) h in
    record {
      code_ok = code;
      value_known = leb→le r.value 3 value;
      verified = equal r.verified 1 verified;
      turned_on = λ e. equal r.value 0 ((on e).0);
      announced = λ e. same_text_eq _ _ ((on e).1);
      confirmed = λ e. same_text_eq _ _ ((on e).2);
      turned_off = λ e. equal r.value 1 (standby e);
    }

-- The last of the tests of a reply, when the command is not `protocol`.
last_test :
    (a b c probe x y : Bool)
    → probe ≡ false
    → (a && (b && (c && (if probe then x else y)))) ≡ true
    → y ≡ true
last_test a b c true x y e h = ground arith
last_test a b c false x y e h = right c y (right b _ (right a _ h))

reply_good-other :
    (command : Text) (r : Reply) (seen : List Key)
    → is command (codes "protocol") ≡ false
    → reply_good command (r, seen) ≡ true
    → other_good command r seen ≡ true
unfolding reply_good
reply_good-other command r seen e h =
    last_test (saw Key.command seen) (saw Key.session seen) (is r.command command)
      (is command (codes "protocol")) (protocol_good r seen) (other_good command r seen) e h

command-IsPower :
    (c : Command)
    → (is_power_command (name_of c) ≡ true) × (is (name_of c) (codes "protocol") ≡ false)
unfolding same_text
command-IsPower Command.on = (refl, refl)
command-IsPower Command.standby = (refl, refl)
command-IsPower Command.status = (refl, refl)

-- A good reply that is `ok`, to a command for the television.
pub reply_good-IsSuccess :
    (c : Command) (r : Reply) (seen : List Key)
    → reply_good (name_of c) (r, seen) ≡ true
    → r.ok ≡ true
    → IsSuccess (name_of c) r
reply_good-IsSuccess c r seen h ok = success_good-IsSuccess (name_of c) r seen (
    other_good-success (name_of c) r seen ((command-IsPower c).0) ok
      (reply_good-other (name_of c) r seen ((command-IsPower c).1) h))
