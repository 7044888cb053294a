-- ===== src/Task/Dispatch/Routing.antt =====
-- The evidence of the television's routing: only a message of the television gives it.
use cec_controller.Common.{
  suc, ℕ, ◌+◌, ◌≤◌, ◌≡◌, ◌≢◌, refl, Bool, true, false, List, [], ◌∷◌, Option, none, some, arith,
  ◌⊎◌, inl, if◌then◌else◌,
}
use cec_controller.CecId.{CecId, cec_id}
use cec_controller.Message.{Message, opcode, operand, initiator_of}
use cec_controller.Task.{Task, say, ping_message, cec_routing_confirmed}
use cec_controller.Task.Allocate.{
  Polls, laddress, allocate_from, allocate_logical_address, get_physical_address,
}
use cec_controller.Task.Dispatch.{
  Arrival, change_route, yield_address, word, active_source, notify_waiter, refresh_address,
  answer_route, answer_address, switch_opcode, dispatch_message,
}

-- A message of the television, at or after `since`, that routes to the address.
abbrev pub RoutesTo : ℕ → ℕ → Arrival → Message → Type 0
RoutesTo physical since e m =
    (initiator_of m ≡ 0)
    × (since ≤ e.arrived)
    × (((cec_id (opcode m) ≡ some CecId.routing_change)
          × (word (operand m 2) (operand m 3) ≡ physical))
        ⊎ ((cec_id (opcode m) ≡ some CecId.routing_information)
            × (word (operand m 0) (operand m 1) ≡ physical)))

-- The two variables of the evidence.
abbrev evidence : Task → ℕ × ℕ
evidence p = (p.routing_address, p.routing_at)

if_same :
    {A : Type 0} (f : Task → A) (b : Bool) (q r : Task) (x : A)
    → f q ≡ x
    → f r ≡ x
    → f (if b then q else r) ≡ x
if_same f true q r x h k = h
if_same f false q r x h k = k

active_source_same : (i a : ℕ) (p : Task) → evidence (active_source i a p) ≡ evidence p
unfolding active_source
active_source_same i a p = ground arith

notify_waiter_same : (o : Option ℕ) (v : ℕ) (p : Task) → evidence (notify_waiter o v p) ≡ evidence p
notify_waiter_same none v p = refl
notify_waiter_same (some c) v p = refl

allocate_from_same :
    (poll : Polls) (k : ℕ) (row : List ℕ) (a : ℕ) (p : Task)
    → evidence ((allocate_from poll k row a p).1) ≡ evidence p
unfolding allocate_from
allocate_from_same poll k [] a p = refl
allocate_from_same poll k (next ∷ row) a p =
    ground (arith, allocate_from_same poll (suc k) row next (say (ping_message next) p))

allocate_same :
    (poll : Polls) (p : Task) → evidence ((allocate_logical_address poll p).1) ≡ evidence p
unfolding allocate_logical_address
allocate_same poll p =
    ground (arith, allocate_from_same poll 0 (laddress p.config.device_type) 15 p)

refresh_same : (e : Arrival) (p : Task) → evidence (refresh_address e p) ≡ evidence p
unfolding refresh_address
refresh_same e p =
    if_same evidence _ _ _ _ refl
      (allocate_same e.polls (record p { paddr = get_physical_address e.ddc p.config }))

answer_route_same : (p : Task) → evidence (answer_route p) ≡ evidence p
unfolding answer_route
answer_route_same p = ground (arith, active_source_same p.laddr p.paddr p)

answer_address_same : (p : Task) → evidence (answer_address p) ≡ evidence p
unfolding answer_address
answer_address_same p = ground arith

-- A message keeps the evidence, takes it away, or is the evidence.
abbrev Evident : ℕ → ℕ → Arrival → Message → Task → ℕ × ℕ → Type 0
Evident physical since e m p v =
    (v.0 ≡ physical)
    → (since ≤ v.1)
    → physical ≢ 0xffff
    → ((p.routing_address ≡ physical) × (since ≤ p.routing_at)) ⊎ RoutesTo physical since e m

module _ (physical since : ℕ) (e : Arrival) (m : Message) (p : Task) where
  by_same : (q : Task) → evidence q ≡ evidence p → Evident physical since e m p (evidence q)
  by_same q h a b n = inl (ground arith)

  switch_opcode-Evident :
      (id : Option CecId)
      → cec_id (opcode m) ≡ id
      → Evident physical since e m p (evidence (switch_opcode e id m p))
  unfolding switch_opcode
  switch_opcode-Evident (some CecId.routing_change) h = λ a b n. ground (
    arith,
    answer_route_same (refresh_address e (change_route e m p)),
    refresh_same e (change_route e m p),
  )
  switch_opcode-Evident (some CecId.routing_information) h = λ a b n. ground arith
  switch_opcode-Evident (some CecId.active_source) h = λ a b n. ground arith
  switch_opcode-Evident (some CecId.report_physical_address) h =
      λ a b n. ground (arith, answer_address_same (refresh_address e p), refresh_same e p)
  switch_opcode-Evident (some CecId.request_active_source) h =
      λ a b n. ground (arith, active_source_same p.laddr p.paddr p)
  switch_opcode-Evident (some CecId.set_stream_path) h = λ a b n.
      ground (arith, active_source_same p.laddr p.paddr (record p { active_addr = p.paddr }))
  switch_opcode-Evident (some CecId.report_power_status) h =
      λ a b n. ground (arith, notify_waiter_same p.waiter (operand m 0 + 1) p)
  switch_opcode-Evident (some CecId.feature_abort) h =
      λ a b n. ground (arith, notify_waiter_same p.waiter (0x100 + operand m 1) p)
  switch_opcode-Evident none h = λ a b n. ground arith
  switch_opcode-Evident (some CecId.image_view_on) h = by_same p refl
  switch_opcode-Evident (some CecId.text_view_on) h = by_same p refl
  switch_opcode-Evident (some CecId.set_osd_name) h = by_same p refl
  switch_opcode-Evident (some CecId.system_audio_mode_status) h = by_same p refl
  switch_opcode-Evident (some CecId.menu_status) h = by_same p refl
  switch_opcode-Evident (some CecId.get_menu_language) h = by_same p refl
  switch_opcode-Evident (some CecId.inactive_source) h = by_same p refl
  switch_opcode-Evident (some CecId.cec_version) h = by_same p refl
  switch_opcode-Evident (some CecId.vendor_command_with_id) h = by_same p refl
  switch_opcode-Evident (some _) h = λ a b n. ground arith

-- The handling of the messages that arrive, the oldest first.
unfoldable pub dispatch_all : List (Arrival × Message) → Task → Task
dispatch_all [] p = p
dispatch_all ((e, m) ∷ rest) p = dispatch_all rest (dispatch_message e m p)

-- One of the messages routes to the address.
abbrev pub AnyRoutesTo : ℕ → ℕ → List (Arrival × Message) → Type 0
AnyRoutesTo physical since [] = ⊥
AnyRoutesTo physical since ((e, m) ∷ rest) =
    RoutesTo physical since e m ⊎ AnyRoutesTo physical since rest

dispatch_message-Evident :
    (physical since : ℕ) (e : Arrival) (m : Message) (p : Task)
    → Evident physical since e m p (evidence (dispatch_message e m p))
unfolding dispatch_message
dispatch_message-Evident physical since e m p = by_tests _ _
  where
    by_tests :
        (b c : Bool)
        → Evident physical since e m p (
            evidence (
              if b
              then if c then yield_address e.now p else switch_opcode e (cec_id (opcode m)) m p
              else p))
    by_tests false c = by_same physical since e m p p refl
    by_tests true true = by_same physical since e m p (yield_address e.now p) refl
    by_tests true false = switch_opcode-Evident physical since e m p (cec_id (opcode m)) refl

-- If messages that arrive make an address pass the test of a confirmed route that it did not pass
-- before, then one of them is a routing message of the television, no earlier than asked for, that names
-- this address. The address is not f.f.f.f, which stands for none.
pub dispatch_all-RoutesTo :
    (physical since : ℕ) (messages : List (Arrival × Message)) (p : Task)
    → physical ≢ 0xffff
    → cec_routing_confirmed physical since p ≡ false
    → cec_routing_confirmed physical since (dispatch_all messages p) ≡ true
    → AnyRoutesTo physical since messages
unfolding cec_routing_confirmed dispatch_all
dispatch_all-RoutesTo physical since [] p n before after = ground arith
dispatch_all-RoutesTo physical since ((e, m) ∷ rest) p n before after = ground (
  arith,
  dispatch_message-Evident physical since e m p,
  dispatch_all-RoutesTo physical since rest (dispatch_message e m p) n,
)
