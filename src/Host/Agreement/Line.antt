-- ===== src/Host/Agreement/Line.antt =====
-- A printed line on its way to the host (host/src/main.c, read_reply; host/src/protocol.c).
use cec_controller.Common.{
  ℕ, ◌+◌, ◌≤◌, ◌<◌, ◌≡◌, ◌≢◌, refl, ap, sym, ◌∙◌, Bool, true, false, not, ◌&&◌, List, [], ◌∷◌, ◌++◌,
  ◌==◌, if◌then◌else◌, strip_prefix, length, length-append, Text, codes, AllChars, All, All-append,
  arith,
}
use cec_controller.Serial.Reply.{fields_text}
use cec_controller.Host.Reply.{empty_reply}
use cec_controller.Host.Protocol.{
  take_pairs, checked, parse_fields, parse_status, parse_version, skip_prompt, cecctl_parse_reply,
}
use cec_controller.Host.Protocol.Tokens.{
  plain, GoodField, found_of, append_nil, append_assoc, parts_of-tokens,
}
use cec_controller.Host.Protocol.Fields.{copy-fits}
use cec_controller.Host.Reader.{Wanted, more, take_byte, take_bytes}

abbrev pub status_text : Bool → Text
status_text ok = if ok then codes "OK" else codes "ERR"

-- A line without its ends.
abbrev pub body : Bool → List (Text × Text) → Text
body ok fields = codes "CECCTRL/2 " ++ (status_text ok ++ fields_text fields)

parse_reply-short :
    (line command : Text)
    → length line < 512
    → cecctl_parse_reply line command ≡ parse_version command (skip_prompt line)
unfolding cecctl_parse_reply
parse_reply-short line command h = ground (arith, h)

after_status :
    (command : Text) (ok : Bool) (text : Text)
    → parse_version command (skip_prompt (codes "CECCTRL/2 " ++ (status_text ok ++ (32 ∷ text))))
      ≡ parse_fields command ok text
unfolding parse_version parse_status skip_prompt strip_prefix
after_status command true text = refl
after_status command false text = refl

shorter :
    (ok : Bool) (text : Text)
    → length (codes "CECCTRL/2 " ++ (status_text ok ++ (32 ∷ text))) < 512
    → length text < 512
shorter true text h = omega (arith, h)
shorter false text h = omega (arith, h)

length-key : (key rest : Text) → length (key ++ (61 ∷ rest)) ≢ 0
length-key [] rest e = omega (arith, e)
length-key (c ∷ key) rest e = omega (arith, e)

module _ (command : Text) (key value : Text) (fields : List (Text × Text))
    (good : All GoodField ((key, value) ∷ fields)) where
  abbrev rest_of : Text
  rest_of = key ++ (61 ∷ (value ++ fields_text fields))

  parse_fields-printed :
      (ok : Bool)
      → length rest_of < 512
      → parse_fields command ok rest_of
        ≡ checked command
            (take_pairs (found_of ((key, value) ∷ fields)) (record empty_reply { ok = ok }, []))
  unfolding parse_fields
  parse_fields-printed ok h =
      rw
        (
          parse_fields,
          copy-fits 512 rest_of (length-key key _) h,
          parts_of-tokens key value fields good,
        )
        refl

  parse_reply-printed :
      (ok : Bool)
      → length (body ok ((key, value) ∷ fields)) < 512
      → cecctl_parse_reply (body ok ((key, value) ∷ fields)) command
        ≡ checked command
            (take_pairs (found_of ((key, value) ∷ fields)) (record empty_reply { ok = ok }, []))
  parse_reply-printed ok h =
      parse_reply-short (body ok ((key, value) ∷ fields)) command h
      ∙ after_status command ok rest_of
      ∙ parse_fields-printed ok (shorter ok rest_of h)

-- Characters that stay in a line.
abbrev pub line_char : ℕ → Bool
line_char c = not (c == 10) && (not (c == 0) && not (c == 13))

take_byte-char :
    (w : Wanted) (c : ℕ) (line : Text)
    → line_char c ≡ true
    → length line < 511
    → take_byte w c (record { line = line; oversized = false })
      ≡ more (record { line = line ++ (c ∷ []); oversized = false })
unfolding take_byte
take_byte-char w c line h k = ground (arith, h, k)

pub take_bytes-word :
    (w : Wanted) (word rest line : Text)
    → AllChars line_char word
    → length line + length word ≤ 511
    → take_bytes w (word ++ rest) (record { line = line; oversized = false })
      ≡ take_bytes w rest (record { line = line ++ word; oversized = false })
unfolding take_bytes
take_bytes-word w [] rest line h k =
    ap (λ t. take_bytes w rest (record { line = t; oversized = false })) (sym (append_nil line))
take_bytes-word w (c ∷ word) rest line (h, hs) k =
    rw (take_bytes, take_byte-char w c line h (omega (arith, k)))
      (take_bytes-word w word rest (line ++ (c ∷ [])) hs
          (omega (arith, k, length-append line (c ∷ [])))
        ∙ ap (λ t. take_bytes w rest (record { line = t; oversized = false }))
            (append_assoc line (c ∷ []) word))

plain-line : (c : ℕ) → plain c ≡ true → line_char c ≡ true
plain-line c h = ground (arith, h)

plain-lines : (t : Text) → AllChars plain t → AllChars line_char t
plain-lines [] h = tt
plain-lines (c ∷ t) (h, hs) = (plain-line c h, plain-lines t hs)

fields-lines :
    (fields : List (Text × Text)) → All GoodField fields → AllChars line_char (fields_text fields)
fields-lines [] h = tt
fields-lines ((key, value) ∷ fields) (g, gs) = (
  refl,
  All-append _ key _ (plain-lines key g.key_plain)
      (refl, All-append _ value _ (plain-lines value g.value_plain) (fields-lines fields gs)),
)

pub body-lines :
    (ok : Bool) (fields : List (Text × Text))
    → All GoodField fields
    → AllChars line_char (body ok fields)
body-lines true fields g = (
  refl,
  (
    refl,
    (
      refl,
      (refl, (refl, (refl, (refl, (refl, (refl, (refl, (refl, (refl, fields-lines fields g))))))))),
    ),
  ),
)
body-lines false fields g = (
  refl,
  (
    refl,
    (
      refl,
      (
        refl,
        (
          refl,
          (refl, (refl, (refl, (refl, (refl, (refl, (refl, (refl, fields-lines fields g)))))))),
        ),
      ),
    ),
  ),
)

length-field :
    (key value : Text) (fields : List (Text × Text))
    → length (fields_text ((key, value) ∷ fields))
      ≡ 2 + length key + length value + length (fields_text fields)
length-field key value fields = omega (
  arith,
  length-append key (61 ∷ (value ++ fields_text fields)),
  length-append value (fields_text fields),
)

abbrev pub total : List (Text × Text) → ℕ
total [] = 0
total ((key, value) ∷ fields) = 2 + length key + length value + total fields

pub length-fields : (fields : List (Text × Text)) → length (fields_text fields) ≡ total fields
length-fields [] = refl
length-fields ((key, value) ∷ fields) =
    omega (arith, length-field key value fields, length-fields fields)

pub parse_reply-fields :
    (command : Text) (ok : Bool) (fields : List (Text × Text))
    → length fields ≢ 0
    → All GoodField fields
    → length (body ok fields) < 512
    → cecctl_parse_reply (body ok fields) command
      ≡ checked command (take_pairs (found_of fields) (record empty_reply { ok = ok }, []))
parse_reply-fields command ok [] nz good h = absurd (nz refl)
parse_reply-fields command ok ((key, value) ∷ fields) nz good h =
    parse_reply-printed command key value fields good ok h
