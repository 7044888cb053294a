-- ===== src/Host/Resolve/Valid.antt =====
-- Whatever its source, the address that the host uses is a valid one (host/src/main.c,
-- resolve_address).
use cec_controller.Common.{
  ℕ, ◌+◌, ◌≡◌, ◌≢◌, refl, subst, Bool, true, false, Bool-cases, Option-cases, inl, inr, List, [],
  ◌∷◌, Option, none, some, ◌==◌, ltb, length, Text, codes, arith, Returns, require, ◌>>◌,
  >>=_eq_some,
}
use cec_controller.Validate.{cec_physical_address_valid}
use cec_controller.Serial.Settings.{c_string}
use cec_controller.Host.Address.{cecctl_parse_physical_address, cecctl_parse-valid}
use cec_controller.Host.Edid.{cecctl_edid_physical_address}
use cec_controller.Host.Edid.Safety.{IsFound, cecctl_edid_physical_address-IsFound}
use cec_controller.Host.Files.{Errno, Disk, Contents, unread, contents, joined, basename, read_file}
use cec_controller.Host.Options.{Options}
use cec_controller.Host.Discovery.{
  Discovery, discovered, undiscovered, discover_address, discover_named, discover_all, discover_at,
  scan, candidate, connected_hdmi, found_address, address_in, address_at, address_from_connector,
  Search, address, lost, Matches, no_matches, with_name, named_directory, as_match, match_at,
  display_identity,
}
use cec_controller.Host.Cache.{
  Writing, load_cached_address, accept_cached, still_selected, same_display, saved_identity,
  all_name_chars, accept_scanned, accept_contents,
}
use cec_controller.Host.Cache.Scan.{scan_cache, Cached}
use cec_controller.Host.Resolve.{
  Resolution, resolved, unresolved, resolve_address, configured, from_discovery, from_cache,
  errno_of, is_exists,
}

abbrev pub IsValid : ℕ → Type 0
IsValid a = cec_physical_address_valid a ≡ true

-- What is found is valid.
abbrev ValidSearch : Search → Type 0
ValidSearch (address a) = IsValid a
ValidSearch (lost _) = Unit

found_address-Valid :
    (found : Option (Option ℕ)) → Returns IsFound found → ValidSearch (found_address found)
found_address-Valid (some (some a)) h = h
found_address-Valid (some none) h = tt
found_address-Valid none h = tt

address_in-Valid : (c : Contents) → ValidSearch (address_in c)
unfolding address_in
address_in-Valid (unread e) = tt
address_in-Valid (contents edid) =
    found_address-Valid (cecctl_edid_physical_address edid)
      (cecctl_edid_physical_address-IsFound edid)

address_from_connector-Valid :
    (disk : Disk) (directory : Text) → ValidSearch (address_from_connector disk directory)
unfolding address_from_connector address_at
address_from_connector-Valid disk directory =
    elim (Option-cases (joined directory (codes "edid"))) [
      | inl e ↦ rw (address_from_connector, e) tt
      | inr (path, e) ↦
          rw (address_from_connector, e) (address_in-Valid (read_file disk path 32768))
    ]

abbrev ValidMatches : Matches → Type 0
ValidMatches m = m.matches ≢ 0 → IsValid (m.last.0)

abbrev ValidDiscovery : Discovery → Type 0
ValidDiscovery (discovered a name) = IsValid a
ValidDiscovery (undiscovered _) = Unit

abbrev pub ValidResolution : Resolution → Type 0
ValidResolution (resolved a source) = IsValid a
ValidResolution (unresolved _) = Unit

abbrev ValidCandidate : Option (ℕ × Text) → Type 0
ValidCandidate none = Unit
ValidCandidate (some one) = IsValid (one.0)

as_match-Valid : (name : Text) (s : Search) → ValidSearch s → ValidCandidate (as_match name s)
as_match-Valid name (address a) h = h
as_match-Valid name (lost _) h = tt

candidate-Valid : (disk : Disk) (root name : Text) → ValidCandidate (candidate disk root name)
unfolding candidate match_at
candidate-Valid disk root name = elim (Option-cases (connected_hdmi disk root name)) [
  | inl e ↦ rw (candidate, e) tt
  | inr (path, e) ↦
      rw (candidate, e)
        (as_match-Valid name (address_from_connector disk path)
          (address_from_connector-Valid disk path))
]

scan-Valid :
    (disk : Disk) (root : Text) (names : List Text) (m : Matches)
    → ValidMatches m
    → ValidMatches (scan disk root names m)
unfolding scan
scan-Valid disk root [] m h = h
scan-Valid disk root (name ∷ names) m h = elim (Option-cases (candidate disk root name)) [
  | inl e ↦ rw (scan, e) (scan-Valid disk root names m h)
  | inr (one, e) ↦
      rw (scan, e)
        (scan-Valid disk root names (record { matches = m.matches + 1; last = one })
          (λ _. subst ValidCandidate e (candidate-Valid disk root name)))
]

discover_all-Valid : (m : Matches) → ValidMatches m → ValidDiscovery (discover_all m)
unfolding discover_all
discover_all-Valid m h = elim (Bool-cases (ltb 1 m.matches)) [
  | inl many ↦ rw many tt
  | inr few ↦ elim (Bool-cases (m.matches == 0)) [
    | inl zero ↦ rw (few, zero) tt
    | inr one ↦ rw (few, one) (h (ground arith))
  ]
]

with_name-Valid : (name : Text) (s : Search) → ValidSearch s → ValidDiscovery (with_name name s)
with_name-Valid name (address a) h = h
with_name-Valid name (lost _) h = tt

discover_at-Valid :
    (disk : Disk) (o : Options) (directory : Option Text)
    → ValidDiscovery (discover_at disk o directory)
unfolding discover_at
discover_at-Valid disk o none = tt
discover_at-Valid disk o (some directory) =
    with_name-Valid (basename o.connector) _ (address_from_connector-Valid disk directory)

discover_address-Valid :
    (error : Errno) (disk : Disk) (o : Options) → ValidDiscovery (discover_address error disk o)
unfolding discover_address discover_named
discover_address-Valid error disk o = elim (Bool-cases (length o.connector == 0)) [
  | inl unnamed ↦ elim (Option-cases (disk.names o.sysfs_root)) [
    | inl e ↦ rw (unnamed, e) tt
    | inr (names, e) ↦
        rw (unnamed, e)
          (discover_all-Valid _
            (scan-Valid disk o.sysfs_root names no_matches (λ h. absurd (h refl))))
  ]
  | inr named ↦ rw named (discover_at-Valid disk o (named_directory o o.connector))
]

all_required :
    (p q r : Bool) (a b : ℕ) → (require p >> (require q >> (require r >> some a))) ≡ some b → a ≡ b
all_required true true true a b h = ground arith
all_required true true false a b h = ground arith
all_required true false r a b h = ground arith
all_required false q r a b h = ground arith

accept_cached-Valid :
    (disk : Disk) (o : Options) (words : Cached) (a : ℕ)
    → accept_cached disk o words ≡ some a
    → IsValid a
unfolding accept_cached
accept_cached-Valid disk o words a h =
    let (parsed, e, rest) = >>=_eq_some (cecctl_parse_physical_address words.physical) _ h in
    subst IsValid
      (all_required (all_name_chars words.connector) (still_selected disk o words.connector)
        (same_display (display_identity disk o words.connector) (saved_identity words.identity))
        parsed a rest)
      (cecctl_parse-valid words.physical parsed e)

abbrev ValidOption : Option ℕ → Type 0
ValidOption none = Unit
ValidOption (some a) = IsValid a

some-Valid : (o : Option ℕ) → ((a : ℕ) → o ≡ some a → IsValid a) → ValidOption o
some-Valid none h = tt
some-Valid (some a) h = h a refl

load_cached_address-Valid : (disk : Disk) (o : Options) → ValidOption (load_cached_address disk o)
unfolding load_cached_address
load_cached_address-Valid disk o = go (read_file disk o.state_file 255)
  where
    accepted : (words : Option Cached) → ValidOption (accept_scanned disk o words)
    accepted none = tt
    accepted (some words) = some-Valid _ (accept_cached-Valid disk o words)

    go : (c : Contents) → ValidOption (accept_contents disk o c)
    go (unread e) = tt
    go (contents text) = accepted (scan_cache (c_string text))

from_cache-Valid : (disk : Disk) (o : Options) (e : Errno) → ValidResolution (from_cache disk o e)
unfolding from_cache
from_cache-Valid disk o e = elim (Bool-cases (is_exists e)) [
  | inl ambiguous ↦ rw (from_cache, ambiguous) tt
  | inr other ↦ elim (Option-cases (load_cached_address disk o)) [
    | inl absent ↦ rw (from_cache, other, absent) tt
    | inr (a, found) ↦
        rw (from_cache, other, found) (subst ValidOption found (load_cached_address-Valid disk o))
  ]
]

from_discovery-Valid :
    (w : Writing) (disk : Disk) (o : Options) (d : Discovery)
    → ValidDiscovery d
    → ValidResolution ((from_discovery w disk o d).0)
unfolding from_discovery
from_discovery-Valid w disk o (discovered a name) h = h
from_discovery-Valid w disk o (undiscovered e) h = from_cache-Valid disk o (errno_of e)

configured-Valid : (text : Text) → ValidResolution (configured text)
unfolding configured
configured-Valid text = elim (Option-cases (cecctl_parse_physical_address text)) [
  | inl e ↦ rw (configured, e) tt
  | inr (a, e) ↦ rw (configured, e) (cecctl_parse-valid text a e)
]

-- Whatever the files hold, an address that the host resolves is a valid one.
pub resolve_address-Valid :
    (error : Errno) (w : Writing) (disk : Disk) (o : Options)
    → ValidResolution ((resolve_address error w disk o).0)
unfolding resolve_address
resolve_address-Valid error w disk o = elim (Bool-cases (length o.physical_address == 0)) [
  | inl e ↦
      rw (resolve_address, e)
        (from_discovery-Valid w disk o _ (discover_address-Valid error disk o))
  | inr e ↦ rw (resolve_address, e) (configured-Valid o.physical_address)
]
