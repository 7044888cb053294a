-- ===== src/Serial/Command/Laws.antt =====
-- What one command `tv` may change.
use cec_controller.Common.{
  ℕ, ◌+◌, ◌%◌, ◌≡◌, refl, subst, sym, same_text_eq, Bool, true, false, List, [], Option, none, some,
  ◌⊎◌, inl, inr, arith, leb, length, get_or, Text, codes, same_text, Bool-cases,
}
use cec_controller.Serial.{Operation, Serial, cdc_printfln, error_text, operation_error, parse_id}
use cec_controller.Serial.Command.{
  Device, protocol_line, find_retained, address_argument, try_send, queue_request, submit_request,
  with_parsed, with_id, with_address, checked_request, exec_tv,
}

-- The fields that no command changes.
abbrev pub Same : Serial → Serial → Type 0
Same p q =
    (q.retained ≡ p.retained)
    × (q.retained_next ≡ p.retained_next)
    × (q.config ≡ p.config)
    × (q.session_id ≡ p.session_id)

-- The operation goes to the worker: nothing else is under way, and no retained result has its id.
pub record Queued (p q : Serial) (r : Operation) : Type 0 where
  pub idle : p.operation_busy ≡ false
  pub free : p.pending ≡ none
  pub pending : q.pending ≡ some r
  pub busy : q.operation_busy ≡ true
  pub new : (find_retained r.id p.retained).request.id ≡ 0
  pub no_result : same_text r.command (codes "result") ≡ false

-- A step that queues nothing, or an operation.
abbrev pub Step : Serial → Serial → Type 0
Step p q =
    Same p q
    × (((q.pending ≡ p.pending) × (q.operation_busy ≡ p.operation_busy))
        ⊎ ((r : Operation) × Queued p q r))

abbrev pub Busy : Serial → Type 0
Busy p = p.operation_busy ≡ false → p.pending ≡ none

printfln-Step : (t : Text) (p : Serial) → Step p (cdc_printfln t p)
unfolding cdc_printfln
printfln-Step t p = elim (Bool-cases (leb 382 (length t))) [
  | inl long ↦ rw long ((refl, refl, refl, refl), inl (refl, refl))
  | inr short ↦ rw short ((refl, refl, refl, refl), inl (refl, refl))
]

error-Step :
    (command : Text) (id : ℕ) (code : Text) (p : Serial)
    → Step p (operation_error command id code p)
unfolding operation_error
error-Step command id code p = printfln-Step (error_text command id p.session_id code) p

stay : (p : Serial) → Step p p
stay p = ((refl, refl, refl, refl), inl (refl, refl))

on_result : (t : Text) → same_text t (codes "on") ≡ true → same_text t (codes "result") ≡ false
unfolding same_text
on_result t h =
    subst (λ (u : Text). same_text u (codes "result") ≡ false) (sym (same_text_eq t (codes "on") h))
      refl

module _ (p : Serial) (busy : Busy p) where
  try_send-Step :
      (pending : Option Operation) (r : Operation)
      → p.pending ≡ pending
      → p.operation_busy ≡ false
      → (find_retained r.id p.retained).request.id ≡ 0
      → same_text r.command (codes "result") ≡ false
      → Step p ((try_send pending r p).1)
  unfolding try_send
  try_send-Step none r e idle new kind = (
    (refl, refl, refl, refl),
    inr (
      r,
      record { idle = idle; free = e; pending = refl; busy = refl; new = new; no_result = kind },
    ),
  )
  try_send-Step (some other) r e idle new kind = cc (busy idle)

  queue_request-Step :
      (on : Bool) (r : Operation)
      → (find_retained r.id p.retained).request.id ≡ 0
      → Step p ((queue_request on (same_text r.command (codes "result")) r p).1)
  unfolding queue_request
  queue_request-Step on r new = ground (
    arith,
    error-Step r.command r.id (codes "busy") p,
    error-Step r.command r.id (codes "unknown_request") p,
    error-Step r.command r.id (codes "invalid_physical_address") p,
    try_send-Step p.pending r refl,
  )

  submit_request-Step :
      (on : Bool) (r : Operation)
      → Step p ((submit_request on (same_text r.command (codes "result")) r p).1)
  unfolding submit_request
  submit_request-Step on r =
      ground
        (arith, error-Step r.command r.id (codes "id_conflict") p, queue_request-Step on r, stay p)

  with_parsed-Step :
      (on : Bool) (id : Option ℕ) (r : Operation)
      → Step p ((with_parsed on (same_text r.command (codes "result")) id r p).1)
  unfolding with_parsed
  with_parsed-Step on none r = stay p
  with_parsed-Step on (some id) r = submit_request-Step on (record r { id = id })

  with_id-Step :
      (on : Bool) (argv : List Text) (r : Operation)
      → Step p ((with_id on (same_text r.command (codes "result")) argv r p).1)
  unfolding with_id
  with_id-Step on argv r = ground (
    arith,
    submit_request-Step on r,
    with_parsed-Step on (parse_id (get_or argv 3 [])) r,
    with_parsed-Step on (parse_id (get_or argv 2 [])) r,
  )

  with_address-Step :
      (argv : List Text) (physical : Option ℕ) (r : Operation)
      → same_text r.command (codes "result") ≡ false
      → Step p ((with_address argv physical r p).1)
  unfolding with_address
  with_address-Step argv none r kind =
      error-Step r.command r.id (codes "invalid_physical_address") p
  with_address-Step argv (some physical) r kind =
      subst (λ b. Step p ((with_id true b argv (record r { physical = physical }) p).1)) kind
        (with_id-Step true argv (record r { physical = physical }))

  checked_request-Step : (argv : List Text) (r : Operation) → Step p ((checked_request argv r p).1)
  unfolding checked_request
  checked_request-Step argv r = ground (
    arith,
    stay p,
    with_address-Step argv (address_argument (get_or argv 2 [])) r,
    on_result r.command,
    with_id-Step (same_text r.command (codes "on")) argv r,
  )

-- One command.
pub exec_tv-Step :
    (d : Device) (argv : List Text) (p : Serial) → Busy p → Step p ((exec_tv d argv p).1)
unfolding exec_tv
exec_tv-Step d argv p busy = ground (
  arith,
  stay p,
  printfln-Step (protocol_line d p) p,
  checked_request-Step (record p { manual_id = (p.manual_id + 1) % 18446744073709551616 }) busy argv
      (record {
        id = (p.manual_id + 1) % 18446744073709551616;
        command = get_or argv 1 [];
        physical = d.physical;
      }),
)
