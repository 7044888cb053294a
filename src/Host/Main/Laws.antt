-- ===== src/Host/Main/Laws.antt =====
-- The host command from its arguments to its exit status (host/src/main.c, main).
use cec_controller.Common.{ℕ, ◌+◌, ◌≤◌, ◌≡◌, ◌≢◌, true, Option, none, some, codes, Returns}
use cec_controller.Validate.{cec_physical_address_valid}
use cec_controller.Host.Reply.{Reply}
use cec_controller.Host.Reader.Laws.{IsWanted}
use cec_controller.Host.Options.{Options, CommandLine, command_line, stopped}
use cec_controller.Host.Resolve.{Source, resolved}
use cec_controller.Host.Run.{Command, name_of, Run}
use cec_controller.Host.Run.Laws.{IsOutcome, Paced}
use cec_controller.Host.Main.{World, Ended, try_of, probe_wanted, plan_of}

-- The clock goes on, and by 100 ms from one round, and from one try, to the next.
pub record IsPaced (w : World) : Type 0 where
  pub rounds_paced : Paced w.rounds
  pub rounds_after : w.started ≤ (w.rounds 0).check
  pub tries_paced : (k : ℕ) → w.tried k + 100 ≤ w.tried (k + 1)
  pub tries_after : w.startup ≤ w.tried 0

-- The address of `on` is a valid one that a try to resolve it gave.
abbrev pub IsResolved : World → Options → ℕ → Type 0
IsResolved w o address =
    (cec_physical_address_valid address ≡ true)
    × ((k : ℕ) × (source : Source) × ((try_of w o k).resolution ≡ resolved address source))

-- A run with the television, for a line of arguments: its command is that of the line, it has an id
-- other than 0, the session and the limits of a good probe, and for `on` a resolved address.
pub record IsControlled (w : World) (line : CommandLine) (outcome : ℕ × Run) : Type 0 where
  pub command : Command
  pub options : Options
  pub address : ℕ
  pub id : ℕ
  pub probe : Reply
  pub asked : line ≡ command_line (some (name_of command)) options
  pub id_some : id ≢ 0
  pub probe_wanted_one : IsWanted probe_wanted probe
  pub valid : command ≡ Command.on → IsResolved w options address
  pub ended : IsOutcome command (plan_of w command address id probe) outcome

-- A success without a run: help, an address that `detect` has found, or a good probe.
pub data IsPlain (w : World) : CommandLine → Type 0 where
  help : {status : ℕ} → status ≡ 0 → IsPlain w (stopped status)
  detected :
      {o : Options} {address : ℕ} {source : Source}
      → (try_of w o 0).resolution ≡ resolved address source
      → IsPlain w (command_line (some (codes "detect")) o)
  probed :
      {o : Options} {r : Reply}
      → IsWanted probe_wanted r
      → r.ok ≡ true
      → IsPlain w (command_line (some (codes "protocol")) o)

abbrev pub IsEnded : World → CommandLine → ℕ × Option Run → Type 0
IsEnded w line (status, none) = status ≡ 0 → IsPlain w line
IsEnded w line (status, some run) = IsControlled w line (status, run)

module _ (w : World) (paced : IsPaced w) (line : CommandLine) where
  Fine : Ended → Type 0
  Fine e = Returns (IsEnded w line) e

  -- The command of the line with its options.
  Asked : Command → Options → Type 0
  Asked c o = line ≡ command_line (some (name_of c)) o

  ValidTry : Options → Option ℕ → Type 0
  ValidTry o none = Unit
  ValidTry o (some a) = IsResolved w o a
