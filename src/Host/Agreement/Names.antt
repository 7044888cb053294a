-- ===== src/Host/Agreement/Names.antt =====
-- The words of a reply, and the results that a reply can stand for.
use cec_controller.Common.{
  ℕ, ◌+◌, ◌≤◌, ◌<◌, ◌≡◌, ◌≢◌, refl, subst, sym, Bool, true, false, not, ◌&&◌, List, [], ◌∷◌, ltb,
  ◌==◌, if◌then◌else◌, length, Text, codes, power, hex_digit, hex_text, decimal_text,
  hex_onto-AllChars, decimal_onto-AllChars, length-hex_onto, AllChars, ◌⊎◌, inl, inr, arith,
}
use cec_controller.Control.{Code, Phase, ControlResult}
use cec_controller.Control.Names.{cec_control_result_name, cec_control_power_name, phase_name}
use cec_controller.Serial.{Operation}
use cec_controller.Serial.Reply.{is_ok}
use cec_controller.Host.Reply.{Reply, empty_reply, Key}
use cec_controller.Host.Protocol.Tokens.{plain, key_char}

abbrev pub source_text : Bool → Text
source_text announced = if announced then codes "announced" else codes "none"

abbrev pub routing_text : Bool → Text
routing_text confirmed = if confirmed then codes "confirmed" else codes "unconfirmed"

-- The reply with the fields that the worker prints.
abbrev pub reply_of : ℕ → Operation → ControlResult → Reply
reply_of session request r = record empty_reply {
  ok = is_ok r.code;
  command = request.command;
  id = request.id;
  session = hex_text 16 session;
  code = cec_control_result_name r.code;
  power = cec_control_power_name r.power_status;
  value = r.power_status;
  verified = if r.power_confirmed then 1 else 0;
  source = source_text r.source_announced;
  routing = routing_text r.routing_confirmed;
  attempts = r.attempts;
  elapsed_ms = r.elapsed_ms;
  phase = phase_name r.phase;
}

-- The keys of a reply, the latest first.
abbrev pub all_keys : List Key
all_keys =
    Key.phase ∷ Key.elapsed_ms ∷ Key.attempts ∷ Key.routing ∷ Key.source ∷ Key.verified ∷ Key.value
    ∷ Key.power ∷ Key.code ∷ Key.session ∷ Key.id ∷ Key.command ∷ []

-- The operations that the worker carries out.
abbrev pub IsCommand : Text → Type 0
IsCommand t = (t ≡ codes "on") ⊎ ((t ≡ codes "standby") ⊎ (t ≡ codes "status"))

-- A result that agrees with itself: in range, and a success has what the command asks for.
pub record Sound (request : Operation) (r : ControlResult) : Type 0 where
  pub known : IsCommand request.command
  pub some_id : request.id ≢ 0
  pub id_fits : request.id < power 16 16
  pub attempts : r.attempts ≤ 3
  pub elapsed : r.elapsed_ms ≤ 30050
  pub status : (r.power_status ≤ 3) ⊎ (r.power_status ≡ 255)
  pub success : r.code ≡ Code.ok → (r.power_confirmed ≡ true) × (r.power_status ≤ 3)
  pub success_on :
      r.code ≡ Code.ok
      → request.command ≡ codes "on"
      → (r.power_status ≡ 0) × (r.source_announced ≡ true) × (r.routing_confirmed ≡ true)
  pub success_standby : r.code ≡ Code.ok → request.command ≡ codes "standby" → r.power_status ≡ 1
  pub input : r.code ≡ Code.input_unconfirmed → (r.power_confirmed ≡ true) × (r.power_status ≡ 0)

-- A word that can be the value of a field with `size` characters.
pub record IsWord (size : ℕ) (t : Text) : Type 0 where
  pub chars : AllChars plain t
  pub some_char : length t ≢ 0
  pub fits : length t < size

-- The test of a word, by evaluation.
all_plain : Text → Bool
all_plain [] = true
all_plain (c ∷ t) = plain c && all_plain t

all_plain-AllChars : (t : Text) → all_plain t ≡ true → AllChars plain t
unfolding all_plain
all_plain-AllChars [] h = tt
all_plain-AllChars (c ∷ t) h = (ground (arith, h), all_plain-AllChars t (ground (arith, h)))

is_word : ℕ → Text → Bool
unfolding all_plain
is_word size t = all_plain t && (not (length t == 0) && ltb (length t) size)

is_word-IsWord : (size : ℕ) (t : Text) → is_word size t ≡ true → IsWord size t
unfolding is_word
is_word-IsWord size t h = record {
  chars = all_plain-AllChars t (ground (arith, h));
  some_char = ground (arith, h);
  fits = ground (arith, h);
}

pub command-IsWord : (t : Text) → IsCommand t → IsWord 64 t
unfolding is_word
command-IsWord t (inl e) = subst (IsWord 64) (sym e) (is_word-IsWord 64 (codes "on") refl)
command-IsWord t (inr (inl e)) =
    subst (IsWord 64) (sym e) (is_word-IsWord 64 (codes "standby") refl)
command-IsWord t (inr (inr e)) = subst (IsWord 64) (sym e) (is_word-IsWord 64 (codes "status") refl)

pub result_name-IsWord : (c : Code) → IsWord 64 (cec_control_result_name c)
unfolding is_word cec_control_result_name
result_name-IsWord Code.ok = is_word-IsWord 64 _ refl
result_name-IsWord Code.invalid_physical_address = is_word-IsWord 64 _ refl
result_name-IsWord Code.no_ack = is_word-IsWord 64 _ refl
result_name-IsWord Code.tx_timeout = is_word-IsWord 64 _ refl
result_name-IsWord Code.response_timeout = is_word-IsWord 64 _ refl
result_name-IsWord Code.transition_timeout = is_word-IsWord 64 _ refl
result_name-IsWord Code.unsupported = is_word-IsWord 64 _ refl
result_name-IsWord Code.input_unconfirmed = is_word-IsWord 64 _ refl
result_name-IsWord Code.unavailable = is_word-IsWord 64 _ refl

pub power_name-IsWord : (n : ℕ) → IsWord 64 (cec_control_power_name n)
unfolding is_word cec_control_power_name
power_name-IsWord n = is_word-IsWord 64 (cec_control_power_name n) (ground arith)

pub phase_name-IsWord : (p : Phase) → IsWord 24 (phase_name p)
unfolding is_word phase_name
phase_name-IsWord Phase.ready = is_word-IsWord 24 _ refl
phase_name-IsWord Phase.power = is_word-IsWord 24 _ refl
phase_name-IsWord Phase.activate = is_word-IsWord 24 _ refl
phase_name-IsWord Phase.status = is_word-IsWord 24 _ refl

pub source_text-IsWord : (b : Bool) → IsWord 16 (source_text b)
unfolding is_word
source_text-IsWord true = is_word-IsWord 16 _ refl
source_text-IsWord false = is_word-IsWord 16 _ refl

pub routing_text-IsWord : (b : Bool) → IsWord 16 (routing_text b)
unfolding is_word
routing_text-IsWord true = is_word-IsWord 16 _ refl
routing_text-IsWord false = is_word-IsWord 16 _ refl

hex_plain : (d : ℕ) → d < 16 → plain (hex_digit d) ≡ true
unfolding hex_digit
hex_plain d h = ground arith

pub hex_text-IsWord : (n : ℕ) → IsWord 17 (hex_text 16 n)
hex_text-IsWord n = record {
  chars = hex_onto-AllChars plain 16 n [] hex_plain tt;
  some_char = λ e. omega (arith, length-hex_onto 16 n [], e);
  fits = omega (arith, length-hex_onto 16 n []);
}

digit_plain : (d : ℕ) → d < 10 → plain (48 + d) ≡ true
digit_plain d h = ground arith

pub decimal_text-plain : (n : ℕ) → AllChars plain (decimal_text n)
decimal_text-plain n = decimal_onto-AllChars plain 10 n [] digit_plain tt

-- The test of a field's name.
all_key : Text → Bool
all_key [] = true
all_key (c ∷ t) = key_char c && all_key t

unfoldable pub is_key : Text → Bool
unfolding all_plain all_key
is_key t = all_plain t && (all_key t && not (length t == 0))

all_key-AllChars : (t : Text) → all_key t ≡ true → AllChars key_char t
unfolding all_key
all_key-AllChars [] h = tt
all_key-AllChars (c ∷ t) h = (ground (arith, h), all_key-AllChars t (ground (arith, h)))

pub is_key-chars : (t : Text) → is_key t ≡ true → AllChars plain t × AllChars key_char t
unfolding is_key
is_key-chars t h =
    (all_plain-AllChars t (ground (arith, h)), all_key-AllChars t (ground (arith, h)))

pub is_key-some : (t : Text) → is_key t ≡ true → length t ≢ 0
unfolding is_key
is_key-some t h = ground (arith, h)

-- The longest words.
pub length-command : (t : Text) → IsCommand t → length t ≤ 7
length-command t (inl e) = rw e (omega arith)
length-command t (inr (inl e)) = rw e (omega arith)
length-command t (inr (inr e)) = rw e (omega arith)

pub length-result_name : (c : Code) → length (cec_control_result_name c) ≤ 24
unfolding cec_control_result_name
length-result_name c = ground arith

pub length-power_name : (n : ℕ) → length (cec_control_power_name n) ≤ 21
unfolding cec_control_power_name
length-power_name n = ground arith

pub length-phase_name : (p : Phase) → length (phase_name p) ≤ 8
unfolding phase_name
length-phase_name p = ground arith

pub length-words :
    (a b c : Bool)
    → (length (source_text a) ≤ 9)
      × (length (routing_text b) ≤ 11)
      × (length (if c then codes "1" else codes "0") ≤ 1)
length-words a b c = ground arith
