-- ===== src/Host/Resolve.antt =====
-- The address that a command uses (host/src/main.c, resolve_address).
pub mod Choice
pub mod Displays
pub mod Failures
pub mod Laws
pub mod Parts
pub mod Valid
use cec_controller.Common.{
  ℕ, List, [], ◌∷◌, ◌++◌, Option, none, some, if◌then◌else◌, ◌==◌, length, Text, codes, Bool, true,
  false, not, ◌&&◌,
}
use cec_controller.Host.Address.{cecctl_parse_physical_address, cecctl_format_physical_address}
use cec_controller.Host.Files.{Errno, Disk}
use cec_controller.Host.Options.{Options}
use cec_controller.Host.Discovery.{
  Discovery, discovered, undiscovered, discover_address, display_identity,
}
use cec_controller.Host.Cache.{Writing, load_cached_address, cache_address}

-- Where the address comes from.
pub data Source : Type 0 where
  config cache : Source
  edid : Text → Source

-- The address with its source, or -1 with errno.
pub data Resolution : Type 0 where
  resolved : ℕ → Source → Resolution
  unresolved : Errno → Resolution

-- The line that the command `detect` prints.
unfoldable pub source_text : Source → Text
source_text Source.config = codes "config"
source_text Source.cache = codes "cache"
source_text (Source.edid connector) = codes "edid connector=" ++ connector

unfoldable pub resolved_line : ℕ → Source → Text
unfolding cecctl_format_physical_address source_text
resolved_line address source =
    codes "physical_address="
    ++ cecctl_format_physical_address address
    ++ codes " source="
    ++ source_text source
    ++ codes "\n"

-- The address that the options give.
unfoldable pub configured : Text → Resolution
unfolding cecctl_parse_physical_address
configured text = elim (cecctl_parse_physical_address text) [
  | none ↦ Resolution.unresolved Errno.invalid
  | some address ↦ Resolution.resolved address Source.config
]

-- errno is ENODEV before the search.
abbrev pub errno_of : Option Errno → Errno
errno_of none = Errno.no_device
errno_of (some e) = e

abbrev pub is_exists : Errno → Bool
is_exists Errno.exists = true
is_exists _ = false

unfoldable pub from_cache : Disk → Options → Errno → Resolution
unfolding load_cached_address
from_cache disk o e =
    if is_exists e then Resolution.unresolved e else elim (load_cached_address disk o) [
      | none ↦ Resolution.unresolved e
      | some address ↦ Resolution.resolved address Source.cache
    ]

unfoldable pub from_discovery : Writing → Disk → Options → Discovery → Resolution × Disk
unfolding cache_address display_identity from_cache
from_discovery w disk o (discovered address connector) = (
  Resolution.resolved address (Source.edid connector),
  cache_address w o.state_file address connector (display_identity disk o connector) disk,
)
from_discovery w disk o (undiscovered e) = (from_cache disk o (errno_of e), disk)

-- `error` is the errno of a directory that cannot be opened.
unfoldable pub resolve_address : Errno → Writing → Disk → Options → Resolution × Disk
unfolding configured from_discovery discover_address
resolve_address error w disk o =
    if length o.physical_address == 0
    then from_discovery w disk o (discover_address error disk o)
    else (configured o.physical_address, disk)
