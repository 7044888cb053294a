-- ===== src/Tests/Client.antt =====
-- The host command on concrete files, a concrete device and a concrete controller.
use cec_controller.Common.{
  ℕ, ◌*◌, ◌≡◌, refl, ap, ◌∙◌, inl, inr, true, false, ◌&&◌, List, [], ◌∷◌, ◌++◌, Option, none, some,
  if◌then◌else◌, ◌==◌, length, Text, codes, same_text, arith, AllChars, All, Bool-cases, ltb, subst,
  sym,
}
use mathlib.Core.List.{append_assoc}
use cec_controller.Config.{cec_config_set_default}
use cec_controller.Host.Protocol.Tokens.{append_nil}
use cec_controller.Validate.{cec_physical_address_valid}
use cec_controller.Serial.{start}
use cec_controller.Serial.Command.{Device, exec_tv, find_retained}
use cec_controller.Host.Files.{Errno, Contents, Answer, Opened, Disk, read_file, read_opened}
use cec_controller.Host.Files.Laws.{IsWhole, all_bytes, kept, read_file-kept}
use cec_controller.Host.Options.{Options, Stream}
use cec_controller.Host.Discovery.{display_identity}
use cec_controller.Host.Cache.{
  Writing, cache_address, load_cached_address, still_selected, same_display,
}
use cec_controller.Host.Cache.RoundTrip.{length-cache_line}
use cec_controller.Host.Cache.Laws.{GoodLine, load_cached-cache_address}
use cec_controller.Host.Resolve.{is_exists, resolve_address}
use cec_controller.Host.Resolve.Choice.{IsChosen}
use cec_controller.Host.Resolve.Laws.{resolve_address-IsChosen}
use cec_controller.Host.Reader.{Wanted}
use cec_controller.Host.Port.{Poll, Writes, Input, Exchange, transact}
use cec_controller.Host.Port.Laws.{IsExchange, transact-IsExchange}
use cec_controller.Host.Run.{Command, wire_of}
use cec_controller.Host.Main.{World, Opening, main}
use cec_controller.Host.Wire.{IsWord, letter, line_of, queued, request_of, exec_tv-wire_of}

-- A directory without connectors, and a file that is read in two pieces.
abbrev two_reads : List Answer
two_reads = Answer.bytes (codes "con") ∷ Answer.interrupted ∷ Answer.bytes (codes "nected\n") ∷ []

abbrev files : Text → Opened
files path =
    if same_text path (codes "/s") then Opened.opened two_reads else Opened.refused Errno.no_entry

abbrev disk : Disk
disk = record { files = files; is_directory = λ _. true; names = λ _. some [] }

read_file-kept_example : read_file disk (codes "/s") 31 ≡ kept 31 (all_bytes two_reads)
unfolding IsWhole same_text
read_file-kept_example =
    read_file-kept disk (codes "/s") 31 two_reads refl (omega arith, (omega arith, tt))

abbrev writing : Writing
writing = record { pid = codes "7"; creates = true; written = 78; syncs = true; renames = true }

abbrev options : Options
options = record {
  config = codes "/c";
  device = codes "/d";
  connector = [];
  state_file = codes "/state";
  sysfs_root = codes "/drm";
  physical_address = [];
}

good_line : GoodLine 0x1000 (codes "card0-HDMI-A-1") 77
unfolding cec_physical_address_valid
good_line = record {
  address_fits = omega arith;
  address_valid = refl;
  name_good = refl;
  name_some = omega arith;
  name_short = omega arith;
  identity_some = λ e. absurd (ground arith);
  identity_fits = omega arith;
}

load_cached-cache_address_example :
    let after = cache_address writing (codes "/state") 0x1000 (codes "card0-HDMI-A-1") 77 disk in
    load_cached_address after options ≡ (
      if still_selected after options (codes "card0-HDMI-A-1")
        && same_display (display_identity after options (codes "card0-HDMI-A-1")) (some 77)
      then some 0x1000
      else none)
load_cached-cache_address_example =
    load_cached-cache_address writing options 0x1000 (codes "card0-HDMI-A-1") 77 disk good_line
      (omega arith) refl (omega (arith, length-cache_line 0x1000 (codes "card0-HDMI-A-1") 77)) refl
      refl

-- No file fails with EEXIST.
NotExists : Contents → Type 0
NotExists (Contents.unread e) = is_exists e ≡ false
NotExists (Contents.contents _) = Unit

kept-NotExists : (capacity : ℕ) (text : Text) → NotExists (kept capacity text)
unfolding kept NotExists
kept-NotExists capacity text = elim (Bool-cases (ltb (length text) capacity)) [
  | inl short ↦ rw short tt
  | inr long ↦ rw long refl
]

read-NotExists : (path : Text) (capacity : ℕ) → NotExists (read_file disk path capacity)
unfolding read_file read_opened NotExists IsWhole
read-NotExists path capacity = elim (Bool-cases (same_text path (codes "/s"))) [
  | inl same ↦
      subst NotExists
        (sym (
          read_file-kept disk path capacity two_reads (rw same refl)
            (omega arith, (omega arith, tt))))
        (kept-NotExists capacity (all_bytes two_reads))
  | inr other ↦ rw other refl
]

never_exists :
    (path : Text) (capacity : ℕ) (e : Errno)
    → read_file disk path capacity ≡ Contents.unread e
    → is_exists e ≡ false
unfolding NotExists
never_exists path capacity e h = subst NotExists h (read-NotExists path capacity)

resolve_address-IsChosen_example :
    IsChosen Errno.no_entry disk options ((resolve_address Errno.no_entry writing disk options).0)
resolve_address-IsChosen_example =
    resolve_address-IsChosen Errno.no_entry writing disk options refl never_exists

-- The port takes a command in two pieces, and the reply comes in two, behind an echo.
abbrev exchange : Text → Exchange
exchange reply = record {
  writing =
      record { now = 10; writes = Writes.wrote 4 }
      ∷ record { now = 11; writes = Writes.blocked Poll.ready }
      ∷ record { now = 12; writes = Writes.wrote 200 }
      ∷ [];
  reading =
      record { now = 13; input = Input.signal }
      ∷ record { now = 14; input = Input.bytes (codes "tv\r\nCECCT") }
      ∷ record { now = 15; input = Input.bytes reply }
      ∷ [];
}

abbrev probe_text : Text
probe_text =
    codes "RL/2 OK command=protocol session=00000000000000aa firmware=1 on_ms=30000 "
    ++ codes "standby_ms=10000 status_ms=3000 gpio=3 ready=1 busy=0\r\n"

abbrev status_text : Text
status_text =
    codes "RL/2 OK command=status session=00000000000000aa id=0000000000000005 code=ok power=on "
    ++ codes
        "value=0 verified=1 source=none routing=unconfirmed attempts=1 elapsed_ms=80 phase=power\r\n"

abbrev wanted : Wanted
wanted = record { command = codes "status"; id = 5; session = some (codes "00000000000000aa") }

transact-IsExchange_example :
    IsExchange wanted
      (wire_of Command.status 0 5)
      (transact wanted 500 (wire_of Command.status 0 5) (exchange status_text))
transact-IsExchange_example =
    transact-IsExchange wanted 500 (wire_of Command.status 0 5) (exchange status_text)

abbrev world : World
world = record {
  streams = λ _. Stream.missing;
  directory_error = Errno.no_entry;
  writing = writing;
  disks = λ _. disk;
  tried = λ k. 100 * k;
  started = 0;
  startup = 0;
  opening =
      record { now = 0; opening = Opening.locked }
      ∷ record { now = 50; opening = Opening.opened }
      ∷ [];
  probed = 10;
  probe = exchange probe_text;
  random = some 5;
  rounds = λ k. record {
    check = 100 * k;
    start = 100 * k;
    exchange = exchange status_text;
    after = 100 * k;
  };
  lookup = record { check = 0; start = 0; exchange = exchange status_text };
}

main_status : Option ℕ
main_status = elim (main world (codes "status" ∷ [])) [
  | none ↦ none
  | some (status, _) ↦ some status
]

-- A shell that cuts at blanks, up to the end of the line.
cut : Text → Text → List Text
cut begun [] = []
cut begun (c ∷ text) =
    let next = cut [] text in
    let longer = cut (begun ++ (c ∷ [])) text in
    if c == 10 then begun ∷ [] else if c == 32 then begun ∷ next else longer

cut-word :
    (word rest begun : Text)
    → AllChars letter word
    → cut begun (word ++ rest) ≡ cut (begun ++ word) rest
unfolding cut
cut-word [] rest begun h = ap (λ t. cut t rest) (sym (append_nil begun))
cut-word (c ∷ word) rest begun (h, hs) =
    rw (no_end, no_blank)
      (cut-word word rest (begun ++ (c ∷ [])) hs
        ∙ ap (λ t. cut t rest) (append_assoc begun (c ∷ []) word))
  where
    no_end : (c == 10) ≡ false
    no_end = ground arith

    no_blank : (c == 32) ≡ false
    no_blank = ground arith

cut-line_of :
    (word : Text) (words : List Text)
    → IsWord word
    → All IsWord words
    → cut [] (line_of word words) ≡ word ∷ words
unfolding cut line_of
cut-line_of word [] w ws = cut-word word (10 ∷ []) [] (w.0)
cut-line_of word (next ∷ words) w (v, ws) =
    cut-word word (32 ∷ line_of next words) [] (w.0) ∙ ap (◌∷◌ word) (cut-line_of next words v ws)

abbrev device : Device
device = record { version = codes "2.0"; pin = 3; ready = true; physical = 0x3000 }

exec_tv-wire_of_example :
    exec_tv device (cut [] (wire_of Command.on 0x1000 5)) (start 9 cec_config_set_default)
    ≡ (true, queued (request_of device Command.on 0x1000 5) (start 9 cec_config_set_default))
unfolding cec_physical_address_valid start find_retained
exec_tv-wire_of_example =
    exec_tv-wire_of (cut []) Command.on device 0x1000 5 (start 9 cec_config_set_default) cut-line_of
      (omega arith) refl (λ e. absurd (ground arith)) (omega arith) refl refl refl
