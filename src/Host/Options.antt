-- ===== src/Host/Options.antt =====
-- The options of the host command: the defaults, the file of the configuration and the command line
-- (host/src/main.c, options_t, copy_string, trim, load_config and the start of main).
pub mod Lines
use cec_controller.Common.{
  ℕ, zero, suc, Bool, true, false, not, ◌&&◌, ◌||◌, List, [], ◌∷◌, ◌++◌, Option, none, some, ltb,
  ◌==◌, if◌then◌else◌, length, Text, codes, same_text,
}
use cec_controller.Serial.Settings.{c_string}
use cec_controller.Host.Protocol.{split_field}
use cec_controller.Host.Options.Lines.{trim, lines_of}

-- options_t.
pub record Options : Type 0 where
  pub config : Text
  pub device : Text
  pub connector : Text
  pub state_file : Text
  pub sysfs_root : Text
  pub physical_address : Text

unfoldable pub default_options : Options
default_options = record {
  config = codes "/etc/cec-controller.conf";
  device = codes "/dev/cec-controller";
  connector = [];
  state_file = codes "/var/lib/cec-controller/physical-address";
  sysfs_root = codes "/sys/class/drm";
  physical_address = [];
}

-- A field of the options that a key or an option names.
pub data Setting : Type 0 where
  config device connector state_file sysfs_root physical_address : Setting

abbrev pub setting : Setting → Options → Text
setting Setting.config o = o.config
setting Setting.device o = o.device
setting Setting.connector o = o.connector
setting Setting.state_file o = o.state_file
setting Setting.sysfs_root o = o.sysfs_root
setting Setting.physical_address o = o.physical_address

abbrev pub store : Setting → Text → Options → Options
store Setting.config value o = record o { config = value }
store Setting.device value o = record o { device = value }
store Setting.connector value o = record o { connector = value }
store Setting.state_file value o = record o { state_file = value }
store Setting.sysfs_root value o = record o { sysfs_root = value }
store Setting.physical_address value o = record o { physical_address = value }

-- The size of the array of a setting.
abbrev pub size_of : Setting → ℕ
size_of Setting.physical_address = 16
size_of _ = 4096

-- A step of the set-up: it goes on with options, it fails, or the program ends with a status.
pub data Setup : Type 0 where
  options : Options → Setup
  failed : Setup
  ended : ℕ → Setup

unfoldable pub copy_string : Setting → Text → Options → Setup
copy_string s value o =
    if ltb (length value) (size_of s) then Setup.options (store s value o) else Setup.ended 2

-- The keys of the file, and the options of the command line.
unfoldable pub file_key : Text → Option Setting
file_key key =
    if same_text key (codes "device")
    then some Setting.device
    else if same_text key (codes "connector")
    then some Setting.connector
    else if same_text key (codes "physical_address")
    then some Setting.physical_address
    else if same_text key (codes "state_file")
    then some Setting.state_file
    else none

unfoldable pub option_key : Text → Option Setting
option_key option =
    if same_text option (codes "--config")
    then some Setting.config
    else if same_text option (codes "--device")
    then some Setting.device
    else if same_text option (codes "--connector")
    then some Setting.connector
    else if same_text option (codes "--physical-address")
    then some Setting.physical_address
    else if same_text option (codes "--sysfs-root")
    then some Setting.sysfs_root
    else if same_text option (codes "--state-file")
    then some Setting.state_file
    else none

unfoldable pub store_key : Text → Text → Options → Setup
unfolding file_key copy_string
store_key key value o = elim (file_key key) [ none ↦ Setup.failed | some s ↦ copy_string s value o ]

unfoldable pub config_entry : Text → Options → Setup
unfolding store_key split_field trim
config_entry [] o = Setup.options o
config_entry (c ∷ entry) o = elim (split_field (c ∷ entry)) [
  | none ↦ if c == 35 then Setup.options o else Setup.failed
  | some (key, value) ↦ if c == 35 then Setup.options o else store_key (trim key) (trim value) o
]

unfoldable pub config_lines : Bool → List Text → Options → Setup
unfolding config_entry trim c_string
config_lines error [] o = if error then Setup.failed else Setup.options o
config_lines error (line ∷ lines) o = elim (config_entry (trim (c_string line)) o) [
  | options next ↦ config_lines error lines next
  | failed ↦ Setup.failed
  | ended status ↦ Setup.ended status
]

-- What the stream of the configuration gives: no such file, an error at its start, or a text and
-- whether an error ended it.
pub data Stream : Type 0 where
  missing unreadable : Stream
  readable : Text → Bool → Stream

unfoldable pub load_config : Stream → Options → Setup
unfolding config_lines lines_of
load_config Stream.missing o = Setup.options o
load_config Stream.unreadable o = Setup.failed
load_config (Stream.readable text error) o = config_lines error (lines_of 4158 [] text) o

-- The first option that asks for the help or for the version.
unfoldable pub asks : List Text → Bool
asks [] = false
asks (arg ∷ args) =
    (same_text arg (codes "--help") || same_text arg (codes "--version")) || asks args

-- Every pair of neighbours that begins with `--config`.
unfoldable pub config_option : List Text → Options → Setup
unfolding copy_string
config_option [] o = Setup.options o
config_option (arg ∷ []) o = Setup.options o
config_option (arg ∷ value ∷ args) o =
    let unchanged = config_option (value ∷ args) o in
    let stored : Setup = elim (copy_string Setting.config value o) [
      | options next ↦ config_option (value ∷ args) next
      | failed ↦ Setup.failed
      | ended status ↦ Setup.ended status
    ] in
    if same_text arg (codes "--config") then stored else unchanged

unfoldable pub store_option : Text → Text → Options → Setup
unfolding option_key copy_string
store_option option value o = elim (option_key option) [
  | none ↦ Setup.ended 2
  | some config ↦ Setup.options o
  | some s ↦ copy_string s value o
]

-- The command line: the options, and the command when there is one.
pub data CommandLine : Type 0 where
  command_line : Option Text → Options → CommandLine
  stopped : ℕ → CommandLine

abbrev pub is_option : Text → Bool
is_option [] = false
is_option (c ∷ arg) = c == 45

unfoldable pub parse_arguments : List Text → Option Text → Options → CommandLine
unfolding store_option
parse_arguments [] command o = CommandLine.command_line command o
parse_arguments (arg ∷ []) command o =
    if is_option arg then CommandLine.stopped 2 else elim command [
      | none ↦ CommandLine.command_line (some arg) o
      | some _ ↦ CommandLine.stopped 2
    ]
parse_arguments (arg ∷ value ∷ args) command o =
    let next = parse_arguments (value ∷ args) (some arg) o in
    let stored : CommandLine = elim (store_option arg value o) [
      | options more ↦ parse_arguments args command more
      | failed ↦ CommandLine.stopped 2
      | ended status ↦ CommandLine.stopped status
    ] in
    if is_option arg then stored else elim command [ none ↦ next | some _ ↦ CommandLine.stopped 2 ]

-- The start of main, up to the choice of the command. The configuration is read from the file that
-- the options name.
unfoldable pub with_config : (Text → Stream) → List Text → Options → CommandLine
unfolding load_config parse_arguments
with_config streams args o = elim (load_config (streams o.config) o) [
  | options loaded ↦ parse_arguments args none loaded
  | failed ↦ CommandLine.stopped 3
  | ended status ↦ CommandLine.stopped status
]

unfoldable pub set_up : (Text → Stream) → List Text → CommandLine
unfolding asks config_option with_config default_options
set_up streams args =
    if asks args then CommandLine.stopped 0 else elim (config_option args default_options) [
      | options o ↦ with_config streams args o
      | failed ↦ CommandLine.stopped 3
      | ended status ↦ CommandLine.stopped status
    ]
