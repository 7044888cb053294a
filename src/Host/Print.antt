-- ===== src/Host/Print.antt =====
-- What the host prints of a reply (host/src/main.c, print_reply).
use cec_controller.Common.{
  Bool, true, false, not, [], ◌++◌, ◌==◌, if◌then◌else◌, length, Text, codes, same_text, hex_text,
  decimal_text,
}
use cec_controller.Host.Reply.{Reply}

-- ` name=value`, when there is a value to print.
abbrev word : Text → Text → Text
word name value = codes " " ++ (name ++ (codes "=" ++ value))

abbrev word_when : Bool → Text → Text → Text
word_when b name value = if b then word name value else []

abbrev is_some_text : Text → Bool
is_some_text text = not (length text == 0)

unfoldable pub evidence_text : Reply → Text
evidence_text r =
    word (codes "verified") (decimal_text r.verified)
    ++ (word (codes "source") r.source ++ word (codes "routing") r.routing)

unfoldable pub ok_text : Reply → Text
unfolding evidence_text
ok_text r =
    codes "command="
    ++ (r.command
        ++ (codes " result=ok"
            ++ (word_when (is_some_text r.power) (codes "power") r.power
                ++ (word_when (is_some_text r.firmware) (codes "firmware") r.firmware
                    ++ ((if same_text r.command (codes "protocol")
                          then word (codes "gpio") (codes "GP" ++ decimal_text r.gpio)
                            ++ (word (codes "ready") (decimal_text r.ready)
                                ++ word (codes "busy") (decimal_text r.busy))
                          else [])
                        ++ ((if r.id == 0
                              then []
                              else word (codes "id") (hex_text 16 r.id)
                                ++ (evidence_text r
                                    ++ word (codes "elapsed_ms") (decimal_text r.elapsed_ms)))
                            ++ (word_when (not (r.attempts == 0)) (codes "attempts")
                                  (decimal_text r.attempts)
                                ++ codes "\n")))))))

unfoldable pub error_line : Reply → Text
unfolding evidence_text
error_line r =
    codes "cecctl: command="
    ++ (r.command
        ++ (word (codes "result") (
              if same_text r.code (codes "input_unconfirmed")
              then codes "partial"
              else codes "error")
            ++ (word (codes "code") r.code
                ++ (word (codes "id") (hex_text 16 r.id)
                    ++ (word (codes "power") r.power
                        ++ (evidence_text r
                            ++ (word (codes "attempts") (decimal_text r.attempts)
                                ++ (word (codes "elapsed_ms") (decimal_text r.elapsed_ms)
                                    ++ (word (codes "phase") r.phase ++ codes "\n")))))))))

-- The text, and whether it goes to the standard output; otherwise it goes to the standard error.
unfoldable pub print_reply : Reply → Bool × Text
unfolding ok_text error_line
print_reply r = if r.ok then (true, ok_text r) else (false, error_line r)
