-- ===== src/Host/Resolve/Choice.antt =====
-- The abstract view of the choice of an address (host/src/main.c, resolve_address, discover_address).
use cec_controller.Common.{
  ℕ, ◌+◌, ◌≡◌, ◌≢◌, ap, ◌∙◌, Option-cases, List, [], ◌∷◌, Option, none, some, length, ◌++◌, Text,
  codes, inl, inr, arith,
}
use cec_controller.Host.Address.{cecctl_parse_physical_address}
use cec_controller.Serial.Settings.{c_string}
use cec_controller.Host.Edid.{cecctl_edid_physical_address}
use cec_controller.Host.Files.{Errno, Disk, contents, read_file, joined, basename}
use cec_controller.Host.Options.{Options}
use cec_controller.Host.Discovery.{
  Discovery, undiscovered, discover_named, discover_all, scan, candidate, Matches, no_matches,
  named_directory,
}
use cec_controller.Host.Cache.{load_cached_address}
use cec_controller.Host.Resolve.{Source, Resolution, errno_of}

-- The displays with an address, one for each connector of the directory that has one.
unfoldable pub candidates : Disk → Text → List Text → List (ℕ × Text)
candidates disk root [] = []
candidates disk root (name ∷ names) = elim (candidate disk root name) [
  | none ↦ candidates disk root names
  | some one ↦ one ∷ candidates disk root names
]

abbrev last_or : ℕ × Text → List (ℕ × Text) → ℕ × Text
last_or d [] = d
last_or d (one ∷ ones) = last_or one ones

abbrev pub matches_of : List (ℕ × Text) → Matches
matches_of found = record { matches = length found; last = last_or (0, []) found }

scan-candidates :
    (disk : Disk) (root : Text) (names : List Text) (m : Matches)
    → scan disk root names m ≡ record {
      matches = m.matches + length (candidates disk root names);
      last = last_or m.last (candidates disk root names);
    }
unfolding scan candidates
scan-candidates disk root [] m = ap (λ n. record { matches = n; last = m.last }) (omega arith)
scan-candidates disk root (name ∷ names) m = elim (Option-cases (candidate disk root name)) [
  | inl e ↦ rw (scan, candidates, e) (scan-candidates disk root names m)
  | inr (one, e) ↦
      rw (scan, candidates, e)
        (scan-candidates disk root names (record { matches = m.matches + 1; last = one })
          ∙ ap (λ n. record { matches = n; last = last_or one (candidates disk root names) })
              (omega arith))
]

pub scan-matches :
    (disk : Disk) (root : Text) (names : List Text)
    → scan disk root names no_matches ≡ matches_of (candidates disk root names)
scan-matches disk root names =
    scan-candidates disk root names no_matches
    ∙ ap (λ n. record { matches = n; last = last_or (0, []) (candidates disk root names) })
        (omega arith)

pub discover_all-many :
    (one two : ℕ × Text) (more : List (ℕ × Text))
    → discover_all (matches_of (one ∷ two ∷ more)) ≡ Discovery.undiscovered (some Errno.exists)
unfolding discover_all
discover_all-many one two more = ground arith

-- A connector's directory has identification data with an address.
unfoldable pub HasEdid : Disk → Text → ℕ → Type 0
HasEdid disk directory a =
    (path : Text) × (joined directory (codes "edid") ≡ some path)
    × (edid : Text) × (read_file disk path 32768 ≡ contents edid)
    × (cecctl_edid_physical_address edid ≡ some (some a))

-- A connector of HDMI of the directory, with a display that has the address `a`: its name has the
-- text of HDMI in it, its status begins with the word for a display, and its data have the address.
pub record IsDisplay (disk : Disk) (root name : Text) (a : ℕ) : Type 0 where
  pub front : Text
  pub back : Text
  pub named : name ≡ front ++ (codes "-HDMI-A-" ++ back)
  pub directory : Text
  pub inside : joined root name ≡ some directory
  pub status_path : Text
  pub status_there : joined directory (codes "status") ≡ some status_path
  pub status : Text
  pub status_read : read_file disk status_path 31 ≡ contents status
  pub rest : Text
  pub connected : c_string status ≡ codes "connected" ++ rest
  pub edid : HasEdid disk directory a

-- The displays of the names of a directory, in their order: none is left out.
pub data Displays (disk : Disk) (root : Text) : List Text → List (ℕ × Text) → Type 0 where
  none_left : Displays disk root [] []
  shown :
      {name : Text} {names : List Text} {a : ℕ} {found : List (ℕ × Text)}
      → IsDisplay disk root name a
      → Displays disk root names found
      → Displays disk root (name ∷ names) ((a, name) ∷ found)
  dark :
      {name : Text} {names : List Text} {found : List (ℕ × Text)}
      → ((a : ℕ) → IsDisplay disk root name a → ⊥)
      → Displays disk root names found
      → Displays disk root (name ∷ names) found

-- The file, or else the error of the search.
abbrev pub or_cache : Disk → Options → Errno → Resolution
or_cache disk o e = elim (load_cached_address disk o) [
  | none ↦ Resolution.unresolved e
  | some a ↦ Resolution.resolved a Source.cache
]

-- The abstract view: the choice that the documents promise.
pub data IsChosen (error : Errno) (disk : Disk) (o : Options) : Resolution → Type 0 where
  by_config :
      {a : ℕ}
      → length o.physical_address ≢ 0
      → cecctl_parse_physical_address o.physical_address ≡ some a
      → IsChosen error disk o (Resolution.resolved a Source.config)
  bad_config :
      length o.physical_address ≢ 0
      → cecctl_parse_physical_address o.physical_address ≡ none
      → IsChosen error disk o (Resolution.unresolved Errno.invalid)
  by_name :
      {directory : Text} {a : ℕ}
      → length o.physical_address ≡ 0
      → length o.connector ≢ 0
      → named_directory o o.connector ≡ some directory
      → HasEdid disk directory a
      → IsChosen error disk o (Resolution.resolved a (Source.edid (basename o.connector)))
  name_lost :
      (e : Option Errno)
      → length o.physical_address ≡ 0
      → length o.connector ≢ 0
      → ((directory : Text) (a : ℕ)
          → named_directory o o.connector ≡ some directory
          → HasEdid disk directory a
          → ⊥)
      → discover_named disk o ≡ undiscovered e
      → IsChosen error disk o (or_cache disk o (errno_of e))
  by_display :
      {names : List Text} {a : ℕ} {name : Text}
      → length o.physical_address ≡ 0
      → length o.connector ≡ 0
      → disk.names o.sysfs_root ≡ some names
      → Displays disk o.sysfs_root names ((a, name) ∷ [])
      → IsChosen error disk o (Resolution.resolved a (Source.edid name))
  ambiguous :
      {names : List Text} {one two : ℕ × Text} {more : List (ℕ × Text)}
      → length o.physical_address ≡ 0
      → length o.connector ≡ 0
      → disk.names o.sysfs_root ≡ some names
      → Displays disk o.sysfs_root names (one ∷ two ∷ more)
      → IsChosen error disk o (Resolution.unresolved Errno.exists)
  no_display :
      {names : List Text}
      → length o.physical_address ≡ 0
      → length o.connector ≡ 0
      → disk.names o.sysfs_root ≡ some names
      → Displays disk o.sysfs_root names []
      → IsChosen error disk o (or_cache disk o Errno.no_device)
  no_directory :
      length o.physical_address ≡ 0
      → length o.connector ≡ 0
      → disk.names o.sysfs_root ≡ none
      → IsChosen error disk o (or_cache disk o error)
