-- ===== src/Host/Discovery.antt =====
-- The search for the display that the computer drives (host/src/main.c, connector_is_connected,
-- address_from_connector, discover_address, display_identity). The options and the names of a
-- directory fit in the arrays that they are copied to.
use Prim.Native.Nat.{bit_xor}
use cec_controller.Common.{
  ℕ, ◌+◌, ◌*◌, ◌%◌, ◌^◌, Bool, false, ◌||◌, List, [], ◌∷◌, ◌++◌, Option, none, some, ltb, leb, ◌==◌,
  if◌then◌else◌, is_some, length, take, Text, codes, strip_prefix,
}
use cec_controller.Serial.Settings.{c_string}
use cec_controller.Host.Edid.{cecctl_edid_physical_address}
use cec_controller.Host.Files.{
  Errno, Answer, Opened, Contents, unread, contents, Disk, read_file, joined, basename,
}
use cec_controller.Host.Options.{Options}

unfoldable pub connector_is_connected : Disk → Text → Bool
unfolding joined read_file strip_prefix c_string
connector_is_connected disk directory = elim (joined directory (codes "status")) [
  | none ↦ false
  | some path ↦ elim (read_file disk path 31) [
    | unread _ ↦ false
    | contents status ↦ is_some (strip_prefix (codes "connected") (c_string status))
  ]
]

-- An address, or -1 with the value of errno when the function sets it.
pub data Search : Type 0 where
  address : ℕ → Search
  lost : Option Errno → Search

abbrev pub found_address : Option (Option ℕ) → Search
found_address (some (some a)) = Search.address a
found_address _ = Search.lost none

unfoldable pub address_in : Contents → Search
unfolding cecctl_edid_physical_address
address_in (unread e) = Search.lost (some e)
address_in (contents edid) = found_address (cecctl_edid_physical_address edid)

unfoldable pub address_at : Disk → Option Text → Search
unfolding address_in read_file
address_at disk none = Search.lost none
address_at disk (some path) = address_in (read_file disk path 32768)

unfoldable pub address_from_connector : Disk → Text → Search
unfolding joined address_at
address_from_connector disk directory = address_at disk (joined directory (codes "edid"))

-- strstr.
unfoldable pub has_part : Text → Text → Bool
unfolding strip_prefix
has_part part [] = is_some (strip_prefix part [])
has_part part (c ∷ text) = is_some (strip_prefix part (c ∷ text)) || has_part part text

abbrev pub hdmi : Text
hdmi = codes "-HDMI-A-"

-- A connector that is one of HDMI and has a display.
unfoldable pub connected_hdmi : Disk → Text → Text → Option Text
unfolding has_part joined connector_is_connected
connected_hdmi disk root name =
    if has_part hdmi name
    then (elim (joined root name) [
      | none ↦ none
      | some path ↦ if connector_is_connected disk path then some path else none
    ])
    else none

abbrev pub as_match : Text → Search → Option (ℕ × Text)
as_match name (Search.address a) = some (a, name)
as_match name (Search.lost _) = none

unfoldable pub match_at : Disk → Text → Option Text → Option (ℕ × Text)
unfolding address_from_connector
match_at disk name none = none
match_at disk name (some path) = as_match name (address_from_connector disk path)

-- The address at a connector of the directory, with the connector's name.
unfoldable pub candidate : Disk → Text → Text → Option (ℕ × Text)
unfolding connected_hdmi match_at
candidate disk root name = match_at disk name (connected_hdmi disk root name)

-- `matches`, and the address and the name of the last match.
pub record Matches : Type 0 where
  pub matches : ℕ
  pub last : ℕ × Text

abbrev pub no_matches : Matches
no_matches = record { matches = 0; last = (0, []) }

unfoldable pub scan : Disk → Text → List Text → Matches → Matches
unfolding candidate
scan disk root [] m = m
scan disk root (name ∷ names) m = elim (candidate disk root name) [
  | none ↦ scan disk root names m
  | some one ↦ scan disk root names (record { matches = m.matches + 1; last = one })
]

-- The address with the name of its connector, or -1 with errno.
pub data Discovery : Type 0 where
  discovered : ℕ → Text → Discovery
  undiscovered : Option Errno → Discovery

unfoldable pub discover_all : Matches → Discovery
discover_all m =
    if ltb 1 m.matches
    then Discovery.undiscovered (some Errno.exists)
    else if m.matches == 0
    then Discovery.undiscovered (some Errno.no_device)
    else Discovery.discovered m.last.0 m.last.1

unfoldable pub is_absolute : Text → Bool
is_absolute [] = false
is_absolute (c ∷ _) = c == 47

-- The directory of a connector that the options name.
unfoldable pub named_directory : Options → Text → Option Text
unfolding joined is_absolute
named_directory o name =
    if is_absolute o.connector then some o.connector else joined o.sysfs_root name

abbrev pub with_name : Text → Search → Discovery
with_name name (Search.address a) = Discovery.discovered a name
with_name name (Search.lost e) = Discovery.undiscovered e

unfoldable pub discover_at : Disk → Options → Option Text → Discovery
unfolding address_from_connector basename
discover_at disk o none = Discovery.undiscovered none
discover_at disk o (some directory) =
    with_name (basename o.connector) (address_from_connector disk directory)

unfoldable pub discover_named : Disk → Options → Discovery
unfolding named_directory discover_at
discover_named disk o = discover_at disk o (named_directory o o.connector)

-- `error` is the errno of a directory that cannot be opened.
unfoldable pub discover_address : Errno → Disk → Options → Discovery
unfolding discover_named discover_all scan
discover_address error disk o =
    if length o.connector == 0
    then (elim (disk.names o.sysfs_root) [
      | none ↦ Discovery.undiscovered (some error)
      | some names ↦ discover_all (scan disk o.sysfs_root names no_matches)
    ])
    else discover_named disk o

unfoldable pub hash_from : ℕ → Text → ℕ
hash_from hash [] = hash
hash_from hash (b ∷ bytes) = hash_from (bit_xor hash b * 1099511628211 % 2 ^ 64) bytes

-- One call of read for 128 bytes.
unfoldable pub hash_of : Opened → ℕ
unfolding hash_from
hash_of (Opened.opened (Answer.bytes text ∷ _)) =
    if leb 128 (length text) then hash_from 14695981039346656037 (take 128 text) else 0
hash_of _ = 0

unfoldable pub display_identity : Disk → Options → Text → ℕ
unfolding hash_of joined is_absolute
display_identity disk o connector =
    elim (joined (if is_absolute o.connector then o.connector else o.sysfs_root ++ (47 ∷ connector))
      (codes "edid")) [ none ↦ 0 | some path ↦ hash_of (disk.files path) ]
