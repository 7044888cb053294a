-- ===== src/Host/Agreement/Bytes.antt =====
-- The two ends of a line.
use cec_controller.Common.{
  ℕ, zero, suc, ◌+◌, ◌≤◌, ◌≡◌, refl, ap, Bool, true, false, List, [], ◌∷◌, ◌++◌, length,
  strip_prefix, Text, codes, length-append, take, arith,
}
use cec_controller.Serial.Reply.{fields_text}
use cec_controller.Host.Reply.{Reply}
use cec_controller.Host.Protocol.{parse_version, skip_prompt, cecctl_parse_reply}
use cec_controller.Host.Reader.{Wanted, Read, answer, new_line, take_bytes, take_byte, answered}
use cec_controller.Host.Agreement.Line.{status_text, body, total, length-fields}

pub take_all : (n : ℕ) (xs : Text) → length xs ≤ n → take n xs ≡ xs
take_all zero [] h = refl
take_all (suc n) [] h = refl
take_all zero (x ∷ xs) h = absurd (omega (arith, h))
take_all (suc n) (x ∷ xs) h = ap (λ t. x ∷ t) (take_all n xs (omega (arith, h)))

pub body-end :
    (ok : Bool) (fields : List (Text × Text)) (t : Text)
    → codes "CECCTRL/2 " ++ (status_text ok ++ (fields_text fields ++ t)) ≡ body ok fields ++ t
body-end true fields t = refl
body-end false fields t = refl

pub length-body :
    (ok : Bool) (fields : List (Text × Text)) → length (body ok fields) ≤ 13 + total fields
length-body true fields = omega (arith, length-fields fields)
length-body false fields = omega (arith, length-fields fields)

pub take_bytes-start :
    (w : Wanted) (t : Text) → take_bytes w (13 ∷ 10 ∷ t) new_line ≡ take_bytes w t new_line
unfolding take_bytes take_byte cecctl_parse_reply parse_version skip_prompt strip_prefix
take_bytes-start w t = refl

take_byte-end :
    (w : Wanted) (line : Text) (x : Read)
    → answered w (cecctl_parse_reply line w.command) ≡ x
    → take_byte w 10 (record { line = line; oversized = false }) ≡ x
unfolding take_byte
take_byte-end w line x e = e

pub take_bytes-end :
    (w : Wanted) (line : Text) (reply : Reply)
    → answered w (cecctl_parse_reply line w.command) ≡ answer reply
    → take_bytes w (13 ∷ 10 ∷ []) (record { line = line; oversized = false }) ≡ answer reply
unfolding take_bytes take_byte
take_bytes-end w line reply e = rw (take_bytes, take_byte-end w line (answer reply) e) refl

pub length-ends :
    (ok : Bool) (fields : List (Text × Text))
    → length (codes "\r\nCECCTRL/2 " ++ (status_text ok ++ (fields_text fields ++ codes "\r\n")))
      ≤ length (body ok fields) + 4
length-ends true fields = omega (arith, length-append (fields_text fields) (codes "\r\n"))
length-ends false fields = omega (arith, length-append (fields_text fields) (codes "\r\n"))
