-- ===== src/Host/Port/Laws.antt =====
-- What an exchange over the port guarantees (host/src/main.c, write_command, read_reply, transact).
use mathlib.Core.List.{append_assoc}
use cec_controller.Common.{
  ℕ, ◌≡◌, refl, sym, ap, subst, ◌∙◌, not, ◌&&◌, List, [], ◌∷◌, ◌++◌, none, some, ltb, take, drop,
  zero, suc, Text, Bool-cases, inl, inr, arith, Option-cases,
}
use cec_controller.Host.Reply.{Reply}
use cec_controller.Host.Reader.{
  Wanted, Reader, Read, more, not_supported, reset, answer, new_line, take_bytes,
}
use cec_controller.Host.Reader.Laws.{IsWanted, Taken, take_bytes-Taken}
use cec_controller.Host.Protocol.Tokens.{append_nil}
use cec_controller.Host.Port.{
  Fault, Writes, WriteTurn, Written, finish_write, write_command, Input, ReadTurn, Answer, replied,
  fault, read_reply, Exchange, after_write, write_turn, read_result, read_turn, wrote, refused,
  blocked, ready, interrupted, stopped, signal, silent, gone, again, closed, bytes, is_empty,
  transact,
}

-- What has gone out is the start of `all`, and all of it when there is no fault.
pub record IsStart (all : Text) (w : Written) : Type 0 where
  pub rest : Text
  pub split : w.sent ++ rest ≡ all
  pub whole : w.fault ≡ none → w.sent ≡ all

take-drop : (n : ℕ) (text : Text) → take n text ++ drop n text ≡ text
take-drop zero text = refl
take-drop (suc n) [] = refl
take-drop (suc n) (c ∷ text) = ap (◌∷◌ c) (take-drop n text)

finished : (command sent : Text) → IsStart (sent ++ command) (finish_write command sent)
finished [] sent = record { rest = []; split = refl; whole = λ _. sym (append_nil sent) }
finished (c ∷ command) sent = record { rest = c ∷ command; split = refl; whole = λ h. ground arith }

failed :
    (command sent : Text) (f : Fault)
    → IsStart (sent ++ command) (record { fault = some f; sent = sent })
failed command sent f = record { rest = command; split = refl; whole = λ h. ground arith }

write_turn-IsStart :
    (next : Text → Text → Written) (command sent : Text) (writes : Writes)
    → ((c s : Text) → IsStart (s ++ c) (next c s))
    → IsStart (sent ++ command) (write_turn next command sent writes)
write_turn-IsStart next command sent (wrote n) rest =
    subst (λ all. IsStart all (next (drop n command) (sent ++ take n command)))
      (append_assoc sent (take n command) (drop n command) ∙ ap (◌++◌ sent) (take-drop n command))
      (rest (drop n command) (sent ++ take n command))
write_turn-IsStart next command sent (refused e) rest = failed command sent (Fault.other e)
write_turn-IsStart next command sent (blocked stopped) rest = failed command sent (Fault.other 0)
write_turn-IsStart next command sent (blocked interrupted) rest = rest command sent
write_turn-IsStart next command sent (blocked ready) rest = rest command sent

write_command-IsStart :
    (deadline : ℕ) (turns : List WriteTurn) (command sent : Text)
    → IsStart (sent ++ command) (write_command deadline turns command sent)
unfolding write_command
write_command-IsStart deadline [] command sent = finished command sent
write_command-IsStart deadline (turn ∷ turns) command sent =
    elim (Bool-cases (not (is_empty command) && ltb turn.now deadline)) [
      | inl goes_on ↦ rw goes_on (
          write_turn-IsStart (write_command deadline turns) command sent turn.writes
            (write_command-IsStart deadline turns))
      | inr stops ↦ rw stops (finished command sent)
    ]

-- A result that holds a reply only when it is one that is waited for.
abbrev pub Awaited : Wanted → Answer → Type 0
Awaited w (replied r) = IsWanted w r
Awaited w (fault _) = Unit

read_result-Awaited :
    (next : Reader → Answer) (w : Wanted) (result : Read)
    → ((s : Reader) → Awaited w (next s))
    → Taken w result
    → Awaited w (read_result next result)
read_result-Awaited next w (more s) rest h = rest s
read_result-Awaited next w not_supported rest h = tt
read_result-Awaited next w reset rest h = tt
read_result-Awaited next w (answer r) rest h = h

read_turn-Awaited :
    (next : Reader → Answer) (w : Wanted) (s : Reader) (input : Input)
    → ((s : Reader) → Awaited w (next s))
    → Awaited w (read_turn next w s input)
read_turn-Awaited next w s signal rest = rest s
read_turn-Awaited next w s silent rest = tt
read_turn-Awaited next w s gone rest = tt
read_turn-Awaited next w s again rest = rest s
read_turn-Awaited next w s closed rest = tt
read_turn-Awaited next w s (bytes text) rest =
    read_result-Awaited next w (take_bytes w text s) rest (take_bytes-Taken w text s)

read_reply-Awaited :
    (w : Wanted) (deadline : ℕ) (turns : List ReadTurn) (s : Reader)
    → Awaited w (read_reply w deadline turns s)
unfolding read_reply
read_reply-Awaited w deadline [] s = tt
read_reply-Awaited w deadline (turn ∷ turns) s = elim (Bool-cases (ltb turn.now deadline)) [
  | inl goes_on ↦ rw goes_on (
      read_turn-Awaited (read_reply w deadline turns) w s turn.input
        (read_reply-Awaited w deadline turns))
  | inr over ↦ rw over tt
]

after_write-Awaited :
    (w : Wanted) (deadline : ℕ) (turns : List ReadTurn) (written : Written)
    → Awaited w ((after_write w deadline turns written).0)
after_write-Awaited w deadline turns written = elim (Option-cases written.fault) [
  | inl e ↦ rw e (read_reply-Awaited w deadline turns new_line)
  | inr (f, e) ↦ rw e tt
]

-- Whatever the port does: an answer is a reply that passes the checks of the command, with the id and
-- from the session that are wanted.
pub transact-Awaited :
    (w : Wanted) (deadline : ℕ) (wire : Text) (x : Exchange)
    → Awaited w ((transact w deadline wire x).0)
unfolding transact
transact-Awaited w deadline wire x =
    after_write-Awaited w deadline x.reading (write_command deadline x.writing wire [])

-- An exchange: the port takes a start of the line, all of it when there is an answer, and the answer
-- is one that is waited for.
pub record IsExchange (w : Wanted) (wire : Text) (result : Answer × Text) : Type 0 where
  pub rest : Text
  pub split : result.1 ++ rest ≡ wire
  pub awaited : Awaited w result.0
  pub whole : (r : Reply) → result.0 ≡ Answer.replied r → result.1 ≡ wire

-- Whatever the calls of the operating system give, an exchange puts the characters of its line on the
-- port in order, no more than once and all of them before a reply is taken, and it takes only a reply
-- that passes every check of the command, with the id and from the session that are wanted.
pub transact-IsExchange :
    (w : Wanted) (deadline : ℕ) (wire : Text) (x : Exchange)
    → IsExchange w wire (transact w deadline wire x)
unfolding transact
transact-IsExchange w deadline wire x = go (write_command deadline x.writing wire []) start
  where
    start : IsStart wire (write_command deadline x.writing wire [])
    start = write_command-IsStart deadline x.writing wire []

    go :
        (written : Written)
        → IsStart wire written
        → IsExchange w wire (after_write w deadline x.reading written)
    go written s = elim (Option-cases written.fault) [
      | inl e ↦ rw e (record {
        rest = s.rest;
        split = s.split;
        awaited = read_reply-Awaited w deadline x.reading new_line;
        whole = λ r _. s.whole e;
      })
      | inr (f, e) ↦
          rw e
            (record { rest = s.rest; split = s.split; awaited = tt; whole = λ r h. ground arith })
    ]
