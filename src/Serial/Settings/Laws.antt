-- ===== src/Serial/Settings/Laws.antt =====
-- The command `set` keeps the configuration valid.
use cec_controller.Common.{
  ◌≡◌, refl, ◌∙◌, Bool, true, false, not, ◌||◌, List, [], ◌∷◌, Option, none, some, ◌==◌, arith,
  length, get_or, Text, codes, same_text, Bool-cases, inl, inr,
}
use cec_controller.Config.{Config, cec_config_valid}
use cec_controller.Task.{Task, cec_apply_config}
use cec_controller.Serial.{Serial, cdc_printfln}
use cec_controller.Serial.Settings.{
  show_config, config_lines, print_lines, candidate, use_candidate, exec_set,
}

-- What the command `set` may have done: nothing but print, or the store of a valid configuration,
-- which is also given to the CEC task.
pub data Stored (p : Serial) (t : Task) : Bool × Serial × Task → Type 0 where
  refused :
      (q : Serial)
      → q.config ≡ p.config
      → q.operation_busy ≡ p.operation_busy
      → Stored p t (false, q, t)
  stored :
      (c : Config) (q : Serial)
      → p.operation_busy ≡ false
      → cec_config_valid c ≡ true
      → q.config ≡ c
      → Stored p t (true, q, cec_apply_config c t)

printfln-config : (t : Text) (p : Serial) → (cdc_printfln t p).config ≡ p.config
unfolding cdc_printfln
printfln-config t p = ground arith

printfln-busy : (t : Text) (p : Serial) → (cdc_printfln t p).operation_busy ≡ p.operation_busy
unfolding cdc_printfln
printfln-busy t p = ground arith

print_lines-config : (lines : List Text) (p : Serial) → (print_lines lines p).config ≡ p.config
unfolding print_lines
print_lines-config [] p = refl
print_lines-config (line ∷ lines) p =
    print_lines-config lines (cdc_printfln line p) ∙ printfln-config line p

use_candidate-Stored :
    (c : Option Config) (p : Serial) (t : Task)
    → p.operation_busy ≡ false
    → Stored p t (use_candidate c p t)
unfolding use_candidate show_config
use_candidate-Stored none p t idle = refused p refl refl
use_candidate-Stored (some c) p t idle = elim (Bool-cases (cec_config_valid c)) [
  | inl valid ↦
      rw valid
        (stored c _ idle valid (print_lines-config (config_lines c) (record p { config = c })))
  | inr bad ↦ rw bad (refused p refl refl)
]

-- The command `set` either fails, and then changes neither the configuration nor the CEC task, or
-- it stores a configuration that passes the check, gives that one to the CEC task, and no operation
-- was under way.
pub exec_set-IsStored : (argv : List Text) (p : Serial) (t : Task) → Stored p t (exec_set argv p t)
unfolding exec_set
exec_set-IsStored argv p t = elim (Bool-cases p.operation_busy) [
  | inl busy ↦ rw busy (refused _ refl refl)
  | inr idle ↦
      simp idle
        (elim (Bool-cases
          (not (length argv == 4) || not (same_text (get_or argv 1 []) (codes "config")))) [
            | inl bad ↦ rw bad (refused p refl refl)
            | inr good ↦ rw good (
                use_candidate-Stored (candidate (get_or argv 2 []) (get_or argv 3 []) p.config) p t
                  idle)
          ])
]
