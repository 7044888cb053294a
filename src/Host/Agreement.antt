-- ===== src/Host/Agreement.antt =====
-- The reply that the worker of the firmware prints (src/usb-cdc.c) is the one that the host reads
-- (host/src/protocol.c).
pub mod Names
pub mod Checks
pub mod Line
pub mod Fields
pub mod Bytes
use cec_controller.Common.{
  ℕ, zero, suc, ◌+◌, ◌≤◌, ◌<◌, ◌≡◌, ◌≢◌, refl, ap, sym, ◌∙◌, Bool, true, false, not, ◌&&◌, ◌||◌,
  List, [], ◌∷◌, ◌++◌, Option, none, some, leb, ltb, ◌==◌, if◌then◌else◌, length, ◌⊎◌, inl, inr,
  strip_prefix, Text, codes, same_text, hex_text, decimal_text, decimal_onto, power, All, AllChars,
  decimal_number, length-hex_onto, length-decimal_onto, length-append, take, subst, arith,
}
use cec_controller.Control.{ControlResult}
use cec_controller.Control.Names.{cec_control_result_name, cec_control_power_name, phase_name}
use cec_controller.Serial.{Operation}
use cec_controller.Serial.Reply.{reply_fields, fields_text, is_ok, reply_line, entry_of}
use cec_controller.Host.Reply.{Reply, empty_reply, Key, key_of, known, key_index}
use cec_controller.Host.Protocol.{
  store_session, map_text, map_number, greatest32, store_field, sixteen_digits, copy, number,
  take_pairs, checked, parse_version, skip_prompt, cecctl_parse_reply, Parsed, parsed,
}
use cec_controller.Host.Checks.{reply_good}
use cec_controller.Host.Protocol.Tokens.{plain, GoodField, parts_of-tokens, found_of}
use cec_controller.Host.Protocol.Fields.{
  copy-fits, number-decimal_text, number-hex_text, Reads, done, field, Reads-take_pairs,
  decimal_text-some,
}
use cec_controller.Host.Reader.{
  Wanted, Read, Reader, answer, new_line, take_bytes, take_byte, same_session, answered,
}
use cec_controller.Host.Agreement.Checks.{reply-good}
use cec_controller.Host.Agreement.Line.{
  status_text, body, parse_reply-fields, body-lines, take_bytes-word, total, length-fields,
}
use cec_controller.Host.Agreement.Names.{
  reply_of, all_keys, IsCommand, IsWord, command-IsWord, result_name-IsWord, power_name-IsWord,
  phase_name-IsWord, source_text-IsWord, routing_text-IsWord, hex_text-IsWord, decimal_text-plain,
  length-command, length-result_name, length-power_name, length-phase_name, length-words, is_key,
  is_key-chars, is_key-some, Sound, source_text, routing_text,
}
use cec_controller.Host.Agreement.Fields.{
  named, printed, flag_text-IsWord, store_copy, store_number, store_flag, store_digits,
  store_session_lem,
}
use cec_controller.Host.Agreement.Bytes.{
  take_all, body-end, length-body, take_bytes-start, take_bytes-end, length-ends,
}

module _ (session : ℕ) (request : Operation) (r : ControlResult) (v : Sound request r)
    (nz : session ≢ 0) (fits : session < power 16 16) where
  fields-Good : All GoodField (reply_fields session request r)
  unfolding reply_fields is_key
  fields-Good = (
    named _ _ refl (command-IsWord request.command v.known),
    (
      named _ _ refl (hex_text-IsWord request.id),
      (
        named _ _ refl (hex_text-IsWord session),
        (
          named _ _ refl (result_name-IsWord r.code),
          (
            named _ _ refl (power_name-IsWord r.power_status),
            (
              printed _ r.power_status refl,
              (
                named _ _ refl (flag_text-IsWord r.power_confirmed),
                (
                  named _ _ refl (source_text-IsWord r.source_announced),
                  (
                    named _ _ refl (routing_text-IsWord r.routing_confirmed),
                    (
                      printed _ r.attempts refl,
                      (
                        printed _ r.elapsed_ms refl,
                        (named _ _ refl (phase_name-IsWord r.phase), tt),
                      ),
                    ),
                  ),
                ),
              ),
            ),
          ),
        ),
      ),
    ),
  )

  reply-Reads :
      Reads
        (reply_fields session request r)
        (record empty_reply { ok = is_ok r.code })
        []
        (reply_of session request r, all_keys)
  unfolding reply_fields key_of known key_index store_field
  reply-Reads =
      field Key.command refl refl (store_copy 64 _ _ (command-IsWord request.command v.known)) (
        field Key.id refl refl (store_digits _ request.id v.some_id v.id_fits) (
          field Key.session refl refl (store_session_lem session _ nz fits) (
            field Key.code refl refl (store_copy 64 _ _ (result_name-IsWord r.code)) (
              field Key.power refl refl (store_copy 64 _ _ (power_name-IsWord r.power_status)) (
                field Key.value refl refl (store_number _ r.power_status (ground (arith, v.status)))
                  (field Key.verified refl refl (store_flag _ r.power_confirmed) (
                    field Key.source refl refl
                      (store_copy 16 _ _ (source_text-IsWord r.source_announced))
                      (field Key.routing refl refl
                        (store_copy 16 _ _ (routing_text-IsWord r.routing_confirmed))
                        (field Key.attempts refl refl
                          (store_number _ r.attempts (omega (arith, v.attempts)))
                          (field Key.elapsed_ms refl refl
                            (store_number _ r.elapsed_ms (omega (arith, v.elapsed)))
                            (field Key.phase refl refl
                              (store_copy 24 _ _ (phase_name-IsWord r.phase)) done)))))))))))

  total-short : total (reply_fields session request r) ≤ 241
  unfolding reply_fields
  total-short =
      let words = length-words r.source_announced r.routing_confirmed r.power_confirmed in
      omega (
        arith,
        length-command request.command v.known,
        length-hex_onto 16 request.id [],
        length-hex_onto 16 session [],
        length-result_name r.code,
        length-power_name r.power_status,
        (length-decimal_onto 10 r.power_status []).1,
        words.0,
        words.1,
        words.2,
        (length-decimal_onto 10 r.attempts []).1,
        (length-decimal_onto 10 r.elapsed_ms []).1,
        length-phase_name r.phase,
      )

  pub line-short : length (body (is_ok r.code) (reply_fields session request r)) ≤ 254
  line-short =
      omega (arith, length-body (is_ok r.code) (reply_fields session request r), total-short)

  some_fields : length (reply_fields session request r) ≢ 0
  unfolding reply_fields
  some_fields e = omega (arith, e)

  parse-printed :
      cecctl_parse_reply (body (is_ok r.code) (reply_fields session request r)) request.command
      ≡ parsed (reply_of session request r)
  parse-printed =
      parse_reply-fields request.command (is_ok r.code) (reply_fields session request r) some_fields
        fields-Good (omega (arith, line-short))
      ∙ ap (checked request.command) (Reads-take_pairs reply-Reads)
      ∙ rw (reply-good session request r v) refl

take_bytes-reply_line :
    (session : ℕ) (request : Operation) (r : ControlResult) (w : Wanted)
    → Sound request r
    → session ≢ 0
    → session < power 16 16
    → w.command ≡ request.command
    → (w.id ≡ 0) ⊎ (w.id ≡ request.id)
    → same_session w.session (reply_of session request r) ≡ true
    → take_bytes w (reply_line session request r) new_line ≡ answer (reply_of session request r)
unfolding reply_line
take_bytes-reply_line session request r w v nz fits command id same =
    ap (λ t. take_bytes w (13 ∷ 10 ∷ t) new_line) (body-end (is_ok r.code) fields (13 ∷ 10 ∷ []))
    ∙ take_bytes-start w (line ++ (13 ∷ 10 ∷ []))
    ∙ take_bytes-word w line (13 ∷ 10 ∷ []) []
        (body-lines (is_ok r.code) fields (fields-Good session request r v nz fits)) short
    ∙ take_bytes-end w line reply (
        ap (λ c. answered w (cecctl_parse_reply line c)) command
        ∙ ap (answered w) (parse-printed session request r v nz fits)
        ∙ accept)
  where
    fields : List (Text × Text)
    fields = reply_fields session request r

    line : Text
    line = body (is_ok r.code) fields

    reply : Reply
    reply = reply_of session request r

    short : 0 + length line ≤ 511
    short = omega (arith, line-short session request r v nz fits)

    accept : answered w (parsed reply) ≡ answer reply
    accept = ground (arith, id, same)

-- Nothing of the line is cut.
entry_of-whole :
    (session : ℕ) (request : Operation) (r : ControlResult)
    → Sound request r
    → session ≢ 0
    → session < power 16 16
    → (entry_of session request r).text ≡ reply_line session request r
unfolding entry_of reply_line
entry_of-whole session request r v nz fits = take_all 383 (reply_line session request r) (
    omega (
      arith,
      length-ends (is_ok r.code) (reply_fields session request r),
      line-short session request r v nz fits,
    ))

-- For every result that agrees with itself, whose numbers are in range, and for an id and a session
-- other than 0 of 64 bits: a host that waits for the command of the request, for its id or for any,
-- and for this session or for any, takes the text that the worker keeps and prints as its answer,
-- with every field of the result. No character of the reply is cut, and it fits the line of the host.
pub take_bytes-entry_of :
    (session : ℕ) (request : Operation) (r : ControlResult) (w : Wanted)
    → Sound request r
    → session ≢ 0
    → session < power 16 16
    → w.command ≡ request.command
    → (w.id ≡ 0) ⊎ (w.id ≡ request.id)
    → same_session w.session (reply_of session request r) ≡ true
    → take_bytes w (entry_of session request r).text new_line ≡ answer (reply_of session request r)
take_bytes-entry_of session request r w v nz fits command id same =
    ap (λ t. take_bytes w t new_line) (entry_of-whole session request r v nz fits)
    ∙ take_bytes-reply_line session request r w v nz fits command id same
