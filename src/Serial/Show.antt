-- ===== src/Serial/Show.antt =====
-- The command `show` and the ways of a text to the USB port (src/usb-cdc.c, exec_show, show_stats_cec,
-- show_stats_cpu, show_stats_tasks, write_usb, cdc_log). A result is true for 0 and false for -1. What
-- the platform tells of its tasks, its pins and its queue is a parameter.
use cec_controller.Common.{
  ℕ, ◌-◌, ◌/◌, ◌%◌, Bool, true, false, not, ◌&&◌, List, [], ◌∷◌, ◌++◌, Option, none, some, ltb,
  ◌==◌, if◌then◌else◌, length, get_or, replicate, take, drop, Text, codes, same_text, hex_text,
  decimal_text, decimal_onto,
}
use cec_controller.Config.{Config}
use cec_controller.Frame.{Stats}
use cec_controller.Serial.{Serial, cdc_printfln}
use cec_controller.Serial.Settings.{labelled, print_lines, show_config}

-- `%-13s: ` and `%-13s | %-10s | %-10s`.
abbrev left_in : ℕ → Text → Text
left_in width text = text ++ replicate (width - length text) 32

abbrev entry : Text → Text → Text
entry label text = left_in 13 label ++ (codes ": " ++ text)

abbrev columns : Text → Text → Text → Text
columns a b c = left_in 13 a ++ (codes " | " ++ (left_in 10 b ++ (codes " | " ++ left_in 10 c)))

abbrev frames : Text → ℕ → Text
frames label n = entry label (decimal_text n ++ codes " frames")

unfoldable pub show_stats_cec : Stats → List Text
show_stats_cec s =
    frames (codes "CEC rx") s.rx_frames
    ∷ frames (codes "CEC tx") s.tx_frames
    ∷ frames (codes "CEC rx abort") s.rx_abort_frames
    ∷ frames (codes "CEC tx noack") s.tx_noack_frames
    ∷ frames (codes "CEC tx timeout") s.tx_timeout_frames
    ∷ frames (codes "CEC tx idle") s.tx_idle_timeout_frames
    ∷ frames (codes "CEC tx alarm") s.tx_alarm_timeout_frames
    ∷ frames (codes "Arbitration") s.tx_arbitration_frames
    ∷ frames (codes "Bus error") s.tx_bus_error_frames
    ∷ []

-- A task of the platform: its name, its share of the time as `%7.3f` prints it, its priority and the
-- least stack that was left.
pub record TaskStatus : Type 0 where
  pub name : Text
  pub share : Text
  pub priority : ℕ
  pub stack : ℕ

-- The days, hours, minutes and seconds of a time in milliseconds.
pub record Uptime : Type 0 where
  pub days : ℕ
  pub hours : ℕ
  pub minutes : ℕ
  pub seconds : ℕ

unfoldable pub uptime_of : ℕ → Uptime
uptime_of ms =
    let seconds = ms / 1000 in
    let minutes = seconds / 60 in
    let hours = minutes / 60 in
    record { days = hours / 24; hours = hours % 24; minutes = minutes % 60; seconds = seconds % 60 }

abbrev long_decimal : ℕ → Text
long_decimal n = decimal_onto 20 n []

unfoldable pub uptime_text : Uptime → Text
uptime_text u =
    long_decimal u.days
    ++ (codes "d "
        ++ (long_decimal u.hours
            ++ (codes "h "
                ++ (long_decimal u.minutes
                    ++ (codes "m " ++ (long_decimal u.seconds ++ codes "s"))))))

unfoldable pub share_lines : List TaskStatus → List Text
share_lines [] = []
share_lines (task ∷ tasks) = entry task.name (task.share ++ codes " %") ∷ share_lines tasks

unfoldable pub show_stats_cpu : ℕ → List TaskStatus → List Text
unfolding uptime_of uptime_text share_lines
show_stats_cpu uptime_ms tasks =
    entry (codes "Uptime") (uptime_text (uptime_of uptime_ms)) ∷ share_lines tasks

unfoldable pub task_lines : List TaskStatus → List Text
task_lines [] = []
task_lines (task ∷ tasks) =
    columns task.name (decimal_text task.priority) (decimal_text task.stack) ∷ task_lines tasks

unfoldable pub show_stats_tasks : List TaskStatus → List Text
unfolding task_lines
show_stats_tasks tasks =
    columns (codes "task") (codes "priority") (codes "stack (min)") ∷ task_lines tasks

-- What the command reads.
pub record Shown : Type 0 where
  pub physical : ℕ
  pub logical : ℕ
  pub pin : ℕ
  pub output : Bool
  pub high : Bool
  pub version : Text
  pub stored : Option Config
  pub stats : Stats
  pub uptime_ms : ℕ
  pub tasks : List TaskStatus

unfoldable pub show_cec : Shown → List Text
show_cec d =
    labelled (codes "Physical address") (codes "0x" ++ hex_text 4 d.physical)
    ∷ labelled (codes "Logical address") (codes "0x" ++ hex_text 2 d.logical)
    ∷ labelled (codes "CEC GPIO") (codes "GP" ++ decimal_text d.pin)
    ∷ labelled (codes "CEC direction") (if d.output then codes "output" else codes "input")
    ∷ labelled (codes "CEC line") (if d.high then codes "high" else codes "low")
    ∷ []

abbrev show_stored : Option Config → Serial → Bool × Serial
show_stored (some c) p = (true, show_config c p)
show_stored none p = (false, cdc_printfln (codes "Failed to read configuration from NVS.") p)

-- Two words. The lines for `cec` are printed, and then the result is -1.
unfoldable pub show_one : Shown → Text → Serial → Bool × Serial
unfolding show_config show_cec print_lines cdc_printfln
show_one d word p =
    if same_text word (codes "config")
    then (true, show_config p.config p)
    else if same_text word (codes "cec")
    then (false, print_lines (show_cec d) p)
    else if same_text word (codes "version")
    then (true, cdc_printfln d.version p)
    else if same_text word (codes "nvs")
    then show_stored d.stored p
    else (false, p)

unfoldable pub show_stats : Shown → Text → Serial → Bool × Serial
unfolding print_lines show_stats_cec show_stats_cpu show_stats_tasks
show_stats d word p =
    if same_text word (codes "cec")
    then (true, print_lines (show_stats_cec d.stats) p)
    else if same_text word (codes "cpu")
    then (true, print_lines (show_stats_cpu d.uptime_ms d.tasks) p)
    else if same_text word (codes "tasks")
    then (true, print_lines (show_stats_tasks d.tasks) p)
    else (false, p)

unfoldable pub exec_show : Shown → List Text → Serial → Bool × Serial
unfolding show_one show_stats
exec_show d argv p =
    let word = get_or argv 1 [] in
    if length argv == 2
    then show_one d word p
    else if length argv == 3 && same_text word (codes "stats")
    then show_stats d (get_or argv 2 []) p
    else (false, p)

-- One turn of the loop of write_usb: whether a host is connected, the clock, and how many characters
-- the port takes.
pub record UsbTurn : Type 0 where
  pub connected : Bool
  pub now : ℕ
  pub accepts : ℕ

abbrev none_left : Text → Bool
none_left [] = true
none_left (_ ∷ _) = false

-- The text that the port has taken, and whether this is all of it. Where the turns end, the limit of
-- 200 ms has passed.
unfoldable pub write_usb : ℕ → List UsbTurn → Text → Text → Bool × Text
write_usb deadline [] text sent = (none_left text, sent)
write_usb deadline (turn ∷ turns) text sent =
    let rest = write_usb deadline turns (drop turn.accepts text) (sent ++ take turn.accepts text) in
    if not (none_left text) && (turn.connected && ltb turn.now deadline)
    then rest
    else (none_left text, sent)

abbrev output_length : ℕ
output_length = 384

abbrev output_count : ℕ
output_count = 8

-- The queue of texts for the port. A line of the log leaves one place free, and is cut to the size of
-- an item.
unfoldable pub cdc_log : Text → List Text → List Text
cdc_log line queue =
    if ltb (output_count - length queue) 2
    then queue
    else queue ++ (take (output_length - 1) line ∷ [])
