-- ===== src/Host/Reader/Laws.antt =====
-- What a reply that the host takes has passed (host/src/main.c, read_reply; host/src/protocol.c).
use cec_controller.Common.{
  ℕ, ◌≡◌, Bool, true, false, ◌||◌, List, [], ◌∷◌, Option, none, some, ◌==◌, leb, ltb, ◌+◌,
  if◌then◌else◌, length, Text, codes, strip_prefix, Bool-cases, Option-cases, inl, inr,
}
use cec_controller.Host.Reply.{Reply, Key}
use cec_controller.Host.Checks.{reply_good}
use cec_controller.Host.Protocol.{
  Parsed, malformed, other_version, parsed, checked, copy, parse_fields, parse_status,
  parse_version, skip_prompt, cecctl_parse_reply,
}
use cec_controller.Host.Reader.{
  Wanted, Reader, Read, answered, same_session, take_byte, take_bytes, more, not_supported, reset,
  answer,
}

-- The reply has the checks of its command behind it.
abbrev pub IsGood : Text → Reply → Type 0
IsGood command r = (seen : List Key) × (reply_good command (r, seen) ≡ true)

-- A result that holds a reply only with the checks behind it.
abbrev Good : Text → Parsed → Type 0
Good command malformed = Unit
Good command other_version = Unit
Good command (parsed r) = IsGood command r

checked-Good :
    (command : Text) (found : Option (Reply × List Key)) → Good command (checked command found)
checked-Good command none = tt
checked-Good command (some (s, seen)) = elim (Bool-cases (reply_good command (s, seen))) [
  | inl good ↦ rw good (seen, good)
  | inr bad ↦ rw bad tt
]

parse_fields-Good :
    (command : Text) (ok : Bool) (line : Text) → Good command (parse_fields command ok line)
unfolding parse_fields
parse_fields-Good command ok line = elim (Option-cases (copy 512 line)) [
  | inl e ↦ rw (parse_fields, e) tt
  | inr (fields, e) ↦ rw (parse_fields, e) (checked-Good command _)
]

parse_status-Good : (command line : Text) → Good command (parse_status command line)
unfolding parse_status
parse_status-Good command line = elim (Option-cases (strip_prefix (codes "OK ") line)) [
  | inl absent ↦ elim (Option-cases (strip_prefix (codes "ERR ") line)) [
    | inl neither ↦ rw (parse_status, absent, neither) tt
    | inr (fields, e) ↦ rw (parse_status, absent, e) (parse_fields-Good command false fields)
  ]
  | inr (fields, e) ↦ rw (parse_status, e) (parse_fields-Good command true fields)
]

parse_version-Good : (command line : Text) → Good command (parse_version command line)
unfolding parse_version
parse_version-Good command line = elim (Option-cases (strip_prefix (codes "CECCTRL/") line)) [
  | inl e ↦ rw (parse_version, e) tt
  | inr (rest, e) ↦ elim (Option-cases (strip_prefix (codes "2 ") rest)) [
    | inl other ↦ rw (parse_version, e, other) tt
    | inr (status, two) ↦ rw (parse_version, e, two) (parse_status-Good command status)
  ]
]

cecctl_parse_reply-Good : (line command : Text) → Good command (cecctl_parse_reply line command)
unfolding cecctl_parse_reply
cecctl_parse_reply-Good line command = elim (Bool-cases (leb 512 (length line))) [
  | inl long ↦ rw long tt
  | inr short ↦ rw short (parse_version-Good command (skip_prompt line))
]

-- What the caller waits for.
pub record IsWanted (w : Wanted) (r : Reply) : Type 0 where
  pub good : IsGood w.command r
  pub same_id : (w.id == 0 || r.id == w.id) ≡ true
  pub same_controller : same_session w.session r ≡ true

abbrev pub Taken : Wanted → Read → Type 0
Taken w (answer r) = IsWanted w r
Taken w _ = Unit

answered-Taken : (w : Wanted) (p : Parsed) → Good w.command p → Taken w (answered w p)
answered-Taken w malformed g = tt
answered-Taken w other_version g = tt
answered-Taken w (parsed r) g = elim (Bool-cases (w.id == 0 || r.id == w.id)) [
  | inr other ↦ rw other tt
  | inl same ↦ elim (Bool-cases (same_session w.session r)) [
    | inl session ↦
        rw (same, session) (record { good = g; same_id = same; same_controller = session })
    | inr changed ↦ rw (same, changed) tt
  ]
]

if-Taken :
    (w : Wanted) (b : Bool) (x y : Read) → Taken w x → Taken w y → Taken w (if b then x else y)
if-Taken w true x y p q = p
if-Taken w false x y p q = q

take_byte-Taken : (w : Wanted) (c : ℕ) (s : Reader) → Taken w (take_byte w c s)
unfolding take_byte
take_byte-Taken w c s =
    if-Taken w (c == 10) _ _
      (if-Taken w s.oversized _ _ tt
        (answered-Taken w _ (cecctl_parse_reply-Good s.line w.command)))
      (if-Taken w (c == 0) _ _ tt (
        if-Taken w (c == 13 || s.oversized) _ _ tt
          (if-Taken w (ltb (length s.line + 1) 512) _ _ tt tt)))

step-Taken :
    (w : Wanted) (bytes : Text) (result : Read)
    → ((s : Reader) → Taken w (take_bytes w bytes s))
    → Taken w result
    → Taken w (elim result as (λ _. Read) [
      | more next ↦ take_bytes w bytes next
      | not_supported ↦ Read.not_supported
      | reset ↦ Read.reset
      | answer r ↦ Read.answer r
    ])
step-Taken w bytes (more next) rest h = rest next
step-Taken w bytes not_supported rest h = tt
step-Taken w bytes reset rest h = tt
step-Taken w bytes (answer r) rest h = h

pub take_bytes-Taken : (w : Wanted) (bytes : Text) (s : Reader) → Taken w (take_bytes w bytes s)
unfolding take_bytes
take_bytes-Taken w [] s = tt
take_bytes-Taken w (c ∷ bytes) s =
    step-Taken w bytes (take_byte w c s) (take_bytes-Taken w bytes) (take_byte-Taken w c s)
