-- ===== src/Host/Resolve/Laws.antt =====
-- What the host takes for the address, as a choice between the configuration, the displays and the
-- file (host/src/main.c, resolve_address, discover_address).
use cec_controller.Common.{
  ℕ, ◌≡◌, ◌≢◌, refl, sym, subst, Bool-cases, Option-cases, List, [], ◌∷◌, Option, some, ◌==◌,
  length, Text, false, inl, inr, arith,
}
use cec_controller.Host.Address.{cecctl_parse_physical_address}
use cec_controller.Host.Files.{Errno, Disk}
use cec_controller.Host.Options.{Options}
use cec_controller.Host.Discovery.{
  Discovery, discovered, undiscovered, discover_address, discover_named, discover_all, discover_at,
  named_directory,
}
use cec_controller.Host.Cache.{Writing}
use cec_controller.Host.Resolve.{
  Source, Resolution, resolve_address, configured, from_discovery, from_cache, errno_of, is_exists,
}
use cec_controller.Host.Resolve.Choice.{
  HasEdid, Displays, candidates, matches_of, scan-matches, discover_all-many, or_cache, IsChosen,
}
use cec_controller.Host.Resolve.Displays.{address-HasEdid, HasEdid-address, candidates-Displays}
use cec_controller.Host.Resolve.Failures.{NeverExists, discover_at-lost, discover_at-found}

from_cache-other :
    (disk : Disk) (o : Options) (e : Errno)
    → is_exists e ≡ false
    → from_cache disk o e ≡ or_cache disk o e
unfolding from_cache
from_cache-other disk o e h = rw (from_cache, h) refl

discovered-lost : {a : ℕ} {name : Text} {e : Option Errno} → discovered a name ≡ undiscovered e → ⊥
discovered-lost h = cc

-- A search at a directory with an address does not fail.
lost_ne_found :
    (disk : Disk) (o : Options) (directory : Text) (a : ℕ) (e : Option Errno)
    → named_directory o o.connector ≡ some directory
    → HasEdid disk directory a
    → discover_named disk o ≡ undiscovered e
    → ⊥
unfolding discover_named discover_at
lost_ne_found disk o directory a e there edid h =
    discovered-lost
      (rw (discover_named, there, discover_at, HasEdid-address disk directory a edid) at h)

module _ (error : Errno) (disk : Disk) (o : Options) where
  Chosen : Resolution → Type 0
  Chosen r = IsChosen error disk o r

  configured-Chosen : length o.physical_address ≢ 0 → Chosen (configured o.physical_address)
  unfolding configured Chosen
  configured-Chosen h = elim (Option-cases (cecctl_parse_physical_address o.physical_address)) [
    | inl e ↦ rw (configured, e) (IsChosen.bad_config h e)
    | inr (a, e) ↦ rw (configured, e) (IsChosen.by_config h e)
  ]

  named-Chosen :
      (w : Writing)
      → NeverExists disk
      → length o.physical_address ≡ 0
      → length o.connector ≢ 0
      → (d : Discovery) → discover_named disk o ≡ d
      → Chosen ((from_discovery w disk o d).0)
  unfolding Chosen from_discovery discover_named
  named-Chosen w never p c (discovered a name) h =
      let (directory, e, found, same) =
        discover_at-found disk o (named_directory o o.connector) a name h in
      subst (λ n. Chosen (Resolution.resolved a (Source.edid n))) same
        (IsChosen.by_name p c e (address-HasEdid disk directory a found))
  named-Chosen w never p c (undiscovered e) h =
      subst Chosen
        (sym (
          from_cache-other disk o (errno_of e)
            (discover_at-lost disk o (named_directory o o.connector) e never h)))
        (IsChosen.name_lost e p c
          (λ directory a there edid. lost_ne_found disk o directory a e there edid h) h)

  all-Chosen :
      (w : Writing) (names : List Text) (found : List (ℕ × Text))
      → length o.physical_address ≡ 0
      → length o.connector ≡ 0
      → disk.names o.sysfs_root ≡ some names
      → Displays disk o.sysfs_root names found
      → Chosen ((from_discovery w disk o (discover_all (matches_of found))).0)
  unfolding Chosen from_discovery discover_all from_cache
  all-Chosen w names [] p c n h = IsChosen.no_display p c n h
  all-Chosen w names ((a, name) ∷ []) p c n h = IsChosen.by_display p c n h
  all-Chosen w names (one ∷ two ∷ more) p c n h =
      subst (λ d. Chosen ((from_discovery w disk o d).0)) (sym (discover_all-many one two more))
        (IsChosen.ambiguous p c n h)

  unnamed-Chosen :
      (w : Writing)
      → is_exists error ≡ false
      → length o.physical_address ≡ 0
      → length o.connector ≡ 0
      → Chosen ((from_discovery w disk o (discover_address error disk o)).0)
  unfolding Chosen from_discovery discover_address
  unnamed-Chosen w other p c = elim (Option-cases (disk.names o.sysfs_root)) [
    | inl e ↦
        rw (discover_address, c, e)
          (subst Chosen (sym (from_cache-other disk o error other)) (IsChosen.no_directory p c e))
    | inr (names, e) ↦
        rw (discover_address, c, e, scan-matches disk o.sysfs_root names)
          (all-Chosen w names (candidates disk o.sysfs_root names) p c e
            (candidates-Displays disk o.sysfs_root names))
  ]

-- For every directory tree, and for calls that do not fail with EEXIST: the result of
-- resolve_address is the choice of the abstract view. An address of the configuration comes first,
-- and a bad one is an error. Then comes the connector that the options name, where its identification
-- data have an address, or else the only connector of the directory with the text of HDMI in its name,
-- a status that begins with the word for a display, and data with an address. Two of them are an
-- error, for which the file is not read. Only when there is none is the address that of the file, or
-- the error of the search.
pub resolve_address-IsChosen :
    (error : Errno) (w : Writing) (disk : Disk) (o : Options)
    → is_exists error ≡ false
    → NeverExists disk
    → IsChosen error disk o ((resolve_address error w disk o).0)
unfolding resolve_address Chosen
resolve_address-IsChosen error w disk o other never =
    elim (Bool-cases (length o.physical_address == 0)) [
      | inl e ↦ elim (Bool-cases (length o.connector == 0)) [
        | inl c ↦
            rw (resolve_address, e)
              (unnamed-Chosen error disk o w other (ground arith) (ground arith))
        | inr c ↦
            rw (resolve_address, discover_address, e, c)
              (named-Chosen error disk o w never (ground arith) (ground arith)
                (discover_named disk o) refl)
      ]
      | inr e ↦ rw (resolve_address, e) (configured-Chosen error disk o (ground arith))
    ]
