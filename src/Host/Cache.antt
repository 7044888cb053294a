-- ===== src/Host/Cache.antt =====
-- The address that is kept on the disk (host/src/main.c, load_cached_address, cache_address).
pub mod Scan
pub mod RoundTrip
pub mod Laws
use cec_controller.Common.{
  ℕ, ◌-◌, ◌%◌, ◌^◌, Bool, true, false, not, ◌&&◌, ◌||◌, List, [], ◌∷◌, ◌++◌, Option, none, some,
  zero, suc, ltb, leb, ◌==◌, if◌then◌else◌, length, take, Text, codes, same_text, strip_prefix,
  hex_text, hex_number, ◌>>=◌, ◌>>◌, require, is_digit,
}
use cec_controller.Serial.Settings.{c_string}
use cec_controller.Host.Address.{cecctl_parse_physical_address}
use cec_controller.Host.Files.{
  Errno, Answer, Opened, Contents, unread, contents, Disk, read_file, put, joined, basename,
}
use cec_controller.Host.Options.{Options}
use cec_controller.Host.Discovery.{
  connected_hdmi, named_directory, is_absolute, has_part, display_identity,
}
use cec_controller.Host.Cache.Scan.{Cached, scan_cache, strtoull}

abbrev pub name_char : ℕ → Bool
name_char c =
    (leb 97 c && leb c 122) || ((leb 65 c && leb c 90) || (is_digit c || (c == 45 || c == 95)))

abbrev pub all_name_chars : Text → Bool
all_name_chars [] = true
all_name_chars (c ∷ text) = name_char c && all_name_chars text

-- Whether another connector of the directory has a display.
unfoldable pub other_connected : Disk → Text → Text → List Text → Bool
unfolding connected_hdmi same_text
other_connected disk root connector [] = false
other_connected disk root connector (name ∷ names) = elim (connected_hdmi disk root name) [
  | none ↦ other_connected disk root connector names
  | some _ ↦ not (same_text name connector) || other_connected disk root connector names
]

-- The connector of the file is still the one to use: it is the one that the options name, or else no
-- other one is connected, and its directory exists.
unfoldable pub alone : Disk → Options → Text → Bool
unfolding other_connected
alone disk o connector = elim (disk.names o.sysfs_root) [
  | none ↦ false
  | some names ↦ not (other_connected disk o.sysfs_root connector names)
]

unfoldable pub directory_there : Disk → Options → Text → Bool
unfolding joined is_absolute
directory_there disk o connector = elim (joined o.sysfs_root connector) [
  | none ↦ false
  | some directory ↦ disk.is_directory (if is_absolute o.connector then o.connector else directory)
]

unfoldable pub still_selected : Disk → Options → Text → Bool
unfolding basename same_text alone directory_there
still_selected disk o connector =
    let selected = basename o.connector in
    (length selected == 0 || same_text selected connector)
    && (directory_there disk o connector && (not (length selected == 0) || alone disk o connector))

-- The display that is there now is the one of the file, or cannot be told.
unfoldable pub same_display : ℕ → Option ℕ → Bool
same_display current none = false
same_display current (some saved) = not (saved == 0) && (current == 0 || current == saved)

unfoldable pub saved_identity : Text → Option ℕ
unfolding strtoull
saved_identity identity = if length identity == 16 then strtoull identity else none

-- The checks of the words of the file.
unfoldable pub accept_cached : Disk → Options → Cached → Option ℕ
unfolding cecctl_parse_physical_address still_selected same_display saved_identity display_identity
accept_cached disk o w = do
  address ← cecctl_parse_physical_address w.physical
  require (all_name_chars w.connector)
  require (still_selected disk o w.connector)
  require (same_display (display_identity disk o w.connector) (saved_identity w.identity))
  some address

abbrev pub accept_scanned : Disk → Options → Option Cached → Option ℕ
accept_scanned disk o none = none
accept_scanned disk o (some words) = accept_cached disk o words

abbrev pub accept_contents : Disk → Options → Contents → Option ℕ
accept_contents disk o (unread _) = none
accept_contents disk o (contents text) = accept_scanned disk o (scan_cache (c_string text))

unfoldable pub load_cached_address : Disk → Options → Option ℕ
unfolding read_file c_string scan_cache accept_cached
load_cached_address disk o = accept_contents disk o (read_file disk o.state_file 255)

-- What the calls that write give: whether the new file is created, how many characters of the line
-- get into it, whether it is synced and renamed; and the number of the process as text.
pub record Writing : Type 0 where
  pub pid : Text
  pub creates : Bool
  pub written : ℕ
  pub syncs : Bool
  pub renames : Bool

unfoldable pub cache_line : ℕ → Text → ℕ → Text
cache_line address connector identity =
    codes "CECCTL_CACHE/2 address="
    ++ (hex_text 4 address
        ++ (codes " connector="
            ++ (connector ++ (codes " display=" ++ (hex_text 16 identity ++ codes "\n")))))

abbrev pub one_read : Text → Opened
one_read text = Opened.opened (Answer.bytes text ∷ [])

abbrev pub no_file : Opened
no_file = Opened.refused Errno.no_entry

-- The calls behind the creation of the temporary file. It holds as much of the line as was written,
-- and the rename puts that under the name of the file.
unfoldable pub write_cache : Writing → Text → Text → Text → ℕ → Disk → Disk
unfolding put
write_cache w path temporary line identity disk =
    let part = one_read (take w.written line) in
    let published = put path part (put temporary no_file disk) in
    let dropped = put temporary no_file disk in
    if not (ltb (length line) 256) || identity == 0
    then dropped
    else if w.written == length line && (w.syncs && w.renames)
    then published
    else dropped

unfoldable pub cache_address : Writing → Text → ℕ → Text → ℕ → Disk → Disk
unfolding write_cache cache_line
cache_address w path address connector identity disk =
    let temporary = path ++ (codes ".tmp." ++ w.pid) in
    if ltb (length temporary) 4096 && w.creates
    then write_cache w path temporary (cache_line address connector identity) identity disk
    else disk
