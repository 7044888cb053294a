-- ===== src/Host/Resolve/Failures.antt =====
-- How a search for a display fails, and what it finds (host/src/main.c, address_from_connector,
-- discover_address).
use cec_controller.Common.{ℕ, ◌≡◌, refl, ap, codes, Option, none, some, Text, false, arith}
use cec_controller.Host.Edid.{cecctl_edid_physical_address}
use cec_controller.Host.Files.{Errno, Disk, Contents, joined, basename, read_file}
use cec_controller.Host.Options.{Options}
use cec_controller.Host.Discovery.{
  Discovery, found_address, address_in, address_at, with_name, discover_at, address_from_connector,
  Search,
}
use cec_controller.Host.Resolve.{errno_of, is_exists}

-- No call that opens or reads a file fails with EEXIST.
abbrev pub NeverExists : Disk → Type 0
NeverExists disk =
    (path : Text) (capacity : ℕ) (e : Errno)
    → read_file disk path capacity ≡ Contents.unread e
    → is_exists e ≡ false

-- How a search at one directory can fail.
found_address-lost :
    (found : Option (Option ℕ)) (e : Option Errno)
    → found_address found ≡ Search.lost e
    → is_exists (errno_of e) ≡ false
found_address-lost (some (some a)) e h = ground arith
found_address-lost (some none) none h = refl
found_address-lost (some none) (some x) h = ground arith
found_address-lost none none h = refl
found_address-lost none (some x) h = ground arith

address_in-lost :
    (c : Contents) (e : Option Errno)
    → ((x : Errno) → c ≡ Contents.unread x → is_exists x ≡ false)
    → address_in c ≡ Search.lost e
    → is_exists (errno_of e) ≡ false
unfolding address_in
address_in-lost (Contents.unread x) none never h = refl
address_in-lost (Contents.unread x) (some y) never h = never y (ground arith)
address_in-lost (Contents.contents edid) e never h =
    found_address-lost (cecctl_edid_physical_address edid) e h

address_at-lost :
    (disk : Disk) (path : Option Text) (e : Option Errno)
    → NeverExists disk
    → address_at disk path ≡ Search.lost e
    → is_exists (errno_of e) ≡ false
unfolding address_at
address_at-lost disk none none never h = refl
address_at-lost disk none (some x) never h = ground arith
address_at-lost disk (some path) e never h =
    address_in-lost (read_file disk path 32768) e (never path 32768) h

with_name-lost :
    (name : Text) (s : Search) (e : Option Errno)
    → with_name name s ≡ Discovery.undiscovered e
    → s ≡ Search.lost e
with_name-lost name (Search.address a) e h = ground arith
with_name-lost name (Search.lost x) e h = ap Search.lost (ground arith)

pub discover_at-lost :
    (disk : Disk) (o : Options) (directory : Option Text) (e : Option Errno)
    → NeverExists disk
    → discover_at disk o directory ≡ Discovery.undiscovered e
    → is_exists (errno_of e) ≡ false
unfolding discover_at address_from_connector
discover_at-lost disk o none none never h = refl
discover_at-lost disk o none (some x) never h = ground arith
discover_at-lost disk o (some directory) e never h =
    address_at-lost disk (joined directory (codes "edid")) e never
      (with_name-lost (basename o.connector) (address_from_connector disk directory) e h)

with_name-found :
    (name : Text) (s : Search) (a : ℕ) (other : Text)
    → with_name name s ≡ Discovery.discovered a other
    → (s ≡ Search.address a) × (name ≡ other)
with_name-found name (Search.address b) a other h = (ap Search.address (ground arith), ground arith)
with_name-found name (Search.lost x) a other h = ground arith

pub discover_at-found :
    (disk : Disk) (o : Options) (directory : Option Text) (a : ℕ) (name : Text)
    → discover_at disk o directory ≡ Discovery.discovered a name
    → (d : Text) × (directory ≡ some d)
      × (address_from_connector disk d ≡ Search.address a)
      × (basename o.connector ≡ name)
unfolding discover_at
discover_at-found disk o none a name h = ground arith
discover_at-found disk o (some d) a name h =
    let (found, same) =
      with_name-found (basename o.connector) (address_from_connector disk d) a name h in
    (d, refl, found, same)
