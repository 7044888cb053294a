-- ===== src/Task/Dispatch/Invariant.antt =====
-- What the handler of a received message keeps, and what it may send.
use cec_controller.Common.{
  ℕ, zero, suc, ◌+◌, ◌/◌, ◌≤◌, ◌<◌, ◌≡◌, refl, sym, subst, Bool, true, false, not, ◌&&◌, ◌||◌, List,
  [], ◌∷◌, Option, none, some, ◌⊎◌, inl, inr, arith, leb, ltb, ◌==◌, if◌then◌else◌, u8, take,
}
use mathlib.Core.Bool.{false≢true}
use cec_controller.CecId.{CecId, cec_id, cec_id-opcode_of}
use cec_controller.Message.{
  Message, header, opcode, operand, initiator_of, destination_of, header0, header0_parts, message,
}
use cec_controller.Validate.{cec_physical_address_valid, cec_message_valid, minimum}
use cec_controller.Config.{osd_name_max_len}
use cec_controller.Task.{
  Task, Lamp, cec_ready, number_of, say, show_lamp, notify_power, strnlen, feature_abort_message,
  device_vendor_id_message, report_power_status_message, set_system_audio_mode_message,
  report_audio_status_message, system_audio_mode_status_message, set_osd_name_message,
  report_physical_address_message, report_cec_version_message, active_source_message,
  menu_status_message,
}
use cec_controller.Task.Allocate.{get_physical_address, allocate_logical_address}
use cec_controller.Task.Dispatch.{
  Arrival, change_route, vendor, abort_refused, menu_request, active_source, wake_waiter,
  notify_waiter, in_window, refresh_address, answer_route, answer_address, switch_opcode,
  yield_address, dispatch_message,
}

-- A well-formed message from the address `a`.
abbrev pub IsOwn : ℕ → Message → Type 0
IsOwn a m = (cec_message_valid m ≡ true) × (initiator_of m ≡ a)

-- The messages `after` are those of `before` and well-formed ones from the address `a` on top.
pub data Said (a : ℕ) (before : List Message) : List Message → Type 0 where
  silent : Said a before before
  said :
      {m : Message}
      → {after : List Message} → IsOwn a m
      → Said a before after
      → Said a before (m ∷ after)

-- The waiting task has its notification, for a message of the television in the query's window.
pub record Woken (e : Arrival) (m : Message) (p : Task) (waiter : Option ℕ) (log : List (ℕ × ℕ × ℕ))
    : Type 0 where
  pub client : ℕ
  pub value : ℕ
  pub waited : p.waiter ≡ some client
  pub emptied : waiter ≡ none
  pub notified : log ≡ (client, notify_power, value) ∷ p.notified
  pub from_tv : initiator_of m ≡ 0
  pub since : p.power_query_since ≤ e.arrived
  pub until : e.arrived ≤ p.power_query_deadline

-- The fields of other operations.
abbrev pub Untouched : Task → Task → Type 0
Untouched p q =
    (q.laddr ≡ p.laddr)
    × (q.config ≡ p.config)
    × (q.queue_created ≡ p.queue_created)
    × (q.tx_generation ≡ p.tx_generation)
    × (q.cancelled_tx ≡ p.cancelled_tx)
    × (q.power_query_since ≡ p.power_query_since)
    × (q.power_query_deadline ≡ p.power_query_deadline)

abbrev pub Waiting : Task → Task → Type 0
Waiting p q = (q.waiter ≡ p.waiter) × (q.notified ≡ p.notified)

pub record Kept (e : Arrival) (m : Message) (p q : Task) : Type 0 where
  pub untouched : Untouched p q
  pub source : q.source_active ≡ true → p.source_active ≡ true
  pub replies : Said p.laddr p.sent q.sent
  pub waiter : Waiting p q ⊎ Woken e m p q.waiter q.notified

strnlen_bound : (cs : List ℕ) (n : ℕ) → strnlen cs n ≤ n
unfolding strnlen
strnlen_bound [] n = omega arith
strnlen_bound (c ∷ cs) zero = omega arith
strnlen_bound (c ∷ cs) (suc n) = ground (arith, strnlen_bound cs n)

message-IsOwn :
    (a d : ℕ) (id : CecId) (operands : List ℕ) (len : ℕ)
    → a < 16
    → d < 16
    → minimum (some id) ≤ len
    → 2 ≤ len
    → len ≤ 16
    → IsOwn a (message (header0 a d) id operands len)
unfolding cec_message_valid
message-IsOwn a d id operands len ha hd hm h2 hl =
    (ground (arith, cec_id-opcode_of id), ground (arith, header0_parts a d ha hd))

Untouched-refl : (p : Task) → Untouched p p
Untouched-refl p = (refl, refl, refl, refl, refl, refl, refl)

module _ (e : Arrival) (m : Message) (p : Task) where
  kept :
      (q : Task)
      → Untouched p q
      → (q.source_active ≡ true → p.source_active ≡ true)
      → q.sent ≡ p.sent
      → Waiting p q
      → Kept e m p q
  kept q u s t w = record {
    untouched = u;
    source = s;
    replies = subst (Said p.laddr p.sent) (sym t) Said.silent;
    waiter = inl w;
  }

  same : Kept e m p p
  same = kept p (Untouched-refl p) (λ h. h) refl (refl, refl)

  say-Kept : (q : Task) (r : Message) → Kept e m p q → IsOwn p.laddr r → Kept e m p (say r q)
  say-Kept q r k own = record {
    untouched = k.untouched;
    source = k.source;
    replies = Said.said own k.replies;
    waiter = k.waiter;
  }

  if-Kept : (b : Bool) (q r : Task) → Kept e m p q → Kept e m p r → Kept e m p (if b then q else r)
  if-Kept true q r x y = x
  if-Kept false q r x y = y

  wake-Kept :
      (value : ℕ)
      → initiator_of m ≡ 0
      → in_window e.arrived p ≡ true
      → Kept e m p (wake_waiter value p)
  wake-Kept value tv w = by_waiter p.waiter refl
    where
      by_waiter : (o : Option ℕ) → p.waiter ≡ o → Kept e m p (notify_waiter o value p)
      by_waiter none h = same
      by_waiter (some client) h = record {
        untouched = Untouched-refl p;
        source = λ s. s;
        replies = Said.silent;
        waiter = inr (record {
          client = client;
          value = value;
          waited = h;
          emptied = refl;
          notified = refl;
          from_tv = tv;
          since = ground arith;
          until = ground arith;
        });
      }

  module _ (ready : cec_ready p ≡ true) (byte : header m < 256) where
    own_bound : p.laddr < 16
    unfolding cec_ready
    own_bound = ground arith

    initiator_bound : initiator_of m < 16
    initiator_bound = omega arith

    own :
        (d : ℕ) (id : CecId) (operands : List ℕ) (len : ℕ)
        → d < 16
        → (leb (minimum (some id)) len && leb 2 len && leb len 16) ≡ true
        → IsOwn p.laddr (message (header0 p.laddr d) id operands len)
    own d id operands len hd h =
        message-IsOwn p.laddr d id operands len own_bound hd (ground arith) (ground arith)
          (ground arith)

    active_source-Kept :
        (q : Task) (physical : ℕ) → Kept e m p q → Kept e m p (active_source p.laddr physical q)
    unfolding active_source active_source_message minimum
    active_source-Kept q physical k =
        if-Kept
          (not q.source_active || not (cec_ready q) || not (cec_physical_address_valid physical)) q
          (say (active_source_message p.laddr physical) q) k
          (say-Kept q (active_source_message p.laddr physical) k
            (own 15 CecId.active_source (_ ∷ _ ∷ []) 4 (omega arith) refl))

    -- A reply under a condition.
    reply-Kept : (b : Bool) (r : Message) → IsOwn p.laddr r → Kept e m p (if b then say r p else p)
    reply-Kept b r h = if-Kept b (say r p) p (say-Kept p r same h) same

    -- An update of fields that only this handler reads, under a condition.
    update-Kept :
        (b : Bool) (q : Task)
        → Untouched p q
        → (q.source_active ≡ true → p.source_active ≡ true)
        → q.sent ≡ p.sent
        → Waiting p q
        → Kept e m p (if b then q else p)
    update-Kept b q u s t w = if-Kept b q p (kept q u s t w) same

    refresh_address-Kept : (q : Task) → Kept e m p q → Kept e m p (refresh_address e q)
    unfolding refresh_address cec_ready
    refresh_address-Kept q k =
        if_true-Kept (cec_ready (moved q)) (moved q)
          (record ((allocated q).1) { laddr = (allocated q).0 }) (ground (arith, k.untouched))
          (record {
            untouched = k.untouched;
            source = k.source;
            replies = k.replies;
            waiter = k.waiter;
          })
      where
        moved : Task → Task
        moved q = record q { paddr = get_physical_address e.ddc q.config }

        allocated : Task → ℕ × Task
        allocated q = allocate_logical_address e.polls (moved q)

        if_true-Kept :
            (b : Bool) (x y : Task) → b ≡ true → Kept e m p x → Kept e m p (if b then x else y)
        if_true-Kept true x y h v = v
        if_true-Kept false x y h v = absurd (false≢true h)

    answer_route-Kept : (q : Task) → Kept e m p q → Kept e m p (answer_route q)
    unfolding answer_route
    answer_route-Kept q k =
        subst (λ a. Kept e m p (if q.paddr == q.active_addr then active_source a q.paddr q else q))
          (sym (k.untouched.0)) (if-Kept _ _ q (active_source-Kept q q.paddr k) k)

    answer_address-Kept : (q : Task) → Kept e m p q → Kept e m p (answer_address q)
    unfolding answer_address report_physical_address_message minimum
    answer_address-Kept q k =
        subst
          (λ a. Kept e m p (
            if q.paddr == 0
            then q
            else say (report_physical_address_message a 15 q.paddr q.config.device_type) q))
          (sym (k.untouched.0))
          (if-Kept _ q _ k (
            say-Kept q _ k
              (own 15 CecId.report_physical_address (_ ∷ _ ∷ _ ∷ []) 5 (omega arith) refl)))

    osd_name-IsOwn : IsOwn p.laddr (set_osd_name_message p.laddr (initiator_of m) p.config.osd_name)
    unfolding set_osd_name_message minimum
    osd_name-IsOwn =
        own (initiator_of m) CecId.set_osd_name
          (take (strnlen p.config.osd_name osd_name_max_len) p.config.osd_name)
          (2 + strnlen p.config.osd_name osd_name_max_len) initiator_bound
          (ground (arith, strnlen_bound p.config.osd_name osd_name_max_len))

    if_wake-Kept :
        (b : Bool) (value : ℕ)
        → (b ≡ true → (initiator_of m ≡ 0) × (in_window e.arrived p ≡ true))
        → Kept e m p (if b then wake_waiter value p else p)
    if_wake-Kept true value h = wake-Kept value ((h refl).0) ((h refl).1)
    if_wake-Kept false value h = same

    unknown-Kept : Kept e m p (
        if destination_of m == p.laddr
        then say (feature_abort_message p.laddr (initiator_of m) (opcode m) 0) p
        else p)
    unfolding feature_abort_message minimum
    unknown-Kept =
        reply-Kept (destination_of m == p.laddr)
          (feature_abort_message p.laddr (initiator_of m) (opcode m) 0)
          (own (initiator_of m) CecId.feature_abort (opcode m ∷ 0 ∷ []) 4 initiator_bound refl)

    switch_opcode-Kept : (id : Option CecId) → Kept e m p (switch_opcode e id m p)
    unfolding switch_opcode minimum set_system_audio_mode_message report_audio_status_message
        system_audio_mode_status_message device_vendor_id_message menu_status_message
        report_power_status_message report_cec_version_message report_physical_address_message
        feature_abort_message
    switch_opcode-Kept (some CecId.standby) =
        update-Kept _ _ (Untouched-refl p) (λ h. ground arith) refl (refl, refl)
    switch_opcode-Kept (some CecId.system_audio_mode_request) =
        reply-Kept (destination_of m == p.laddr)
          (set_system_audio_mode_message p.laddr (initiator_of m) p.audio_status)
          (own (initiator_of m) CecId.set_system_audio_mode (number_of p.audio_status ∷ []) 3
            initiator_bound refl)
    switch_opcode-Kept (some CecId.give_audio_status) =
        reply-Kept (destination_of m == p.laddr)
          (report_audio_status_message p.laddr (initiator_of m) 50)
          (own (initiator_of m) CecId.report_audio_status (50 ∷ []) 3 initiator_bound refl)
    switch_opcode-Kept (some CecId.set_system_audio_mode) =
        update-Kept _ _ (Untouched-refl p) (λ h. h) refl (refl, refl)
    switch_opcode-Kept (some CecId.give_system_audio_mode_status) =
        reply-Kept (destination_of m == p.laddr)
          (system_audio_mode_status_message p.laddr (initiator_of m) p.audio_status)
          (own (initiator_of m) CecId.system_audio_mode_status (number_of p.audio_status ∷ []) 3
            initiator_bound refl)
    switch_opcode-Kept (some CecId.routing_change) = answer_route-Kept _ (
        refresh_address-Kept (change_route e m p)
          (kept _ (Untouched-refl p) (λ h. ground arith) refl (refl, refl)))
    switch_opcode-Kept (some CecId.routing_information) =
        update-Kept _ _ (Untouched-refl p) (λ h. ground arith) refl (refl, refl)
    switch_opcode-Kept (some CecId.active_source) =
        kept _ (Untouched-refl p) (λ h. ground arith) refl (refl, refl)
    switch_opcode-Kept (some CecId.report_physical_address) =
        if-Kept _ _ p (answer_address-Kept _ (refresh_address-Kept p same)) same
    switch_opcode-Kept (some CecId.request_active_source) =
        if-Kept _ _ p (active_source-Kept p p.paddr same) same
    switch_opcode-Kept (some CecId.set_stream_path) =
        if-Kept _ _ p
          (lit (
            say-Kept _ _
              (state (
                active_source-Kept (record p { active_addr = p.paddr }) p.paddr
                  (kept _ (Untouched-refl p) (λ h. h) refl (refl, refl))))
              (own 0 CecId.menu_status (0 ∷ []) 3 (omega arith) refl)))
          same
      where
        state : {q : Task} → Kept e m p q → Kept e m p (record q { menu_state = true })
        state k = record {
          untouched = k.untouched;
          source = k.source;
          replies = k.replies;
          waiter = k.waiter;
        }

        lit : {q : Task} → Kept e m p q → Kept e m p (show_lamp Lamp.green_2hz q)
        lit k = record {
          untouched = k.untouched;
          source = k.source;
          replies = k.replies;
          waiter = k.waiter;
        }
    switch_opcode-Kept (some CecId.device_vendor_id) =
        reply-Kept (initiator_of m == 0 && destination_of m == 15)
          (device_vendor_id_message p.laddr 15 vendor)
          (own 15 CecId.device_vendor_id (u8 (vendor / 65536) ∷ u8 (vendor / 256) ∷ u8 vendor ∷ [])
            5 (omega arith) refl)
    switch_opcode-Kept (some CecId.give_device_vendor_id) =
        reply-Kept (destination_of m == p.laddr) (device_vendor_id_message p.laddr 15 vendor) (
          own 15 CecId.device_vendor_id (u8 (vendor / 65536) ∷ u8 (vendor / 256) ∷ u8 vendor ∷ []) 5
            (omega arith) refl)
    switch_opcode-Kept (some CecId.menu_request) =
        if-Kept (destination_of m == p.laddr) _ p
          (say-Kept (record p { menu_state = menu_request (operand m 0) p.menu_state })
            (menu_status_message p.laddr (initiator_of m) (menu_request (operand m 0) p.menu_state))
            (kept _ (Untouched-refl p) (λ h. h) refl (refl, refl))
            (own (initiator_of m) CecId.menu_status (_ ∷ []) 3 initiator_bound refl))
          same
    switch_opcode-Kept (some CecId.give_device_power_status) =
        reply-Kept (destination_of m == p.laddr)
          (report_power_status_message p.laddr (initiator_of m)
            (number_of (not (p.active_addr == p.paddr))))
          (own (initiator_of m) CecId.report_power_status
            (number_of (not (p.active_addr == p.paddr)) ∷ []) 3 initiator_bound refl)
    switch_opcode-Kept (some CecId.report_power_status) =
        if_wake-Kept _ (operand m 0 + 1) (λ h. (ground arith, ground arith))
    switch_opcode-Kept (some CecId.get_cec_version) =
        reply-Kept (destination_of m == p.laddr)
          (report_cec_version_message p.laddr (initiator_of m))
          (own (initiator_of m) CecId.cec_version (4 ∷ []) 3 initiator_bound refl)
    switch_opcode-Kept (some CecId.give_osd_name) =
        reply-Kept (destination_of m == p.laddr)
          (set_osd_name_message p.laddr (initiator_of m) p.config.osd_name) osd_name-IsOwn
    switch_opcode-Kept (some CecId.give_physical_address) =
        reply-Kept (destination_of m == p.laddr && not (p.paddr == 0))
          (report_physical_address_message p.laddr 15 p.paddr p.config.device_type)
          (own 15 CecId.report_physical_address
            (u8 (p.paddr / 256) ∷ u8 p.paddr ∷ p.config.device_type ∷ []) 5 (omega arith) refl)
    switch_opcode-Kept (some CecId.user_control_pressed) =
        update-Kept _ _ (Untouched-refl p) (λ h. h) refl (refl, refl)
    switch_opcode-Kept (some CecId.user_control_released) =
        update-Kept _ _ (Untouched-refl p) (λ h. h) refl (refl, refl)
    switch_opcode-Kept (some CecId.abort) =
        reply-Kept (destination_of m == p.laddr)
          (feature_abort_message p.laddr (initiator_of m) (opcode m) abort_refused)
          (own (initiator_of m) CecId.feature_abort (opcode m ∷ abort_refused ∷ []) 4
            initiator_bound refl)
    switch_opcode-Kept (some CecId.feature_abort) =
        if_wake-Kept _ (0x100 + operand m 1) (λ h. (ground arith, ground arith))
    switch_opcode-Kept (some CecId.report_audio_status) = unknown-Kept
    switch_opcode-Kept (some CecId.request_arc_initiation) = unknown-Kept
    switch_opcode-Kept none = unknown-Kept
    switch_opcode-Kept (some _) = same

-- Another user of our address: the address is given up without a word.
pub record Yielded (now : ℕ) (p q : Task) : Type 0 where
  pub address : q.laddr ≡ 15
  pub waits : q.next_allocate ≡ now + 2000000
  pub inactive : q.source_active ≡ false
  pub quiet : (q.sent ≡ p.sent) × (q.notified ≡ p.notified) × (q.waiter ≡ p.waiter)

-- Another user of our address: a message with an opcode, well-formed, in our name, while we have the
-- address.
pub IsStranger : Message → Task → Type 0
IsStranger m p =
    (1 < m.len) × (cec_message_valid m ≡ true) × (cec_ready p ≡ true) × (initiator_of m ≡ p.laddr)

-- The handler of a received message, whose header is a byte. When the message is a well-formed one
-- with an opcode and comes from our own address, which we have, then the handler gives the address up
-- for 2 s and says nothing. Else it turns no source on, keeps the address and the fields of other
-- operations, sends only well-formed messages from its own address, and notifies a waiting client only
-- for a message of the television in the query's window.
pub dispatch_message-Kept :
    (e : Arrival) (m : Message) (p : Task)
    → header m < 256
    → (IsStranger m p × Yielded e.now p (dispatch_message e m p))
      ⊎ ((IsStranger m p → ⊥) × Kept e m p (dispatch_message e m p))
unfolding dispatch_message IsStranger
dispatch_message-Kept e m p byte =
    by_test (ltb 1 m.len && cec_message_valid m && cec_ready p) (initiator_of m == p.laddr)
      (λ h. (ground arith, ground arith, ground arith)) (λ h. ground arith)
      (λ h (l, v, r, o). ground arith) (λ h (l, v, r, o). ground arith)
  where
    Handled : Task → Type 0
    Handled q = (IsStranger m p × Yielded e.now p q) ⊎ ((IsStranger m p → ⊥) × Kept e m p q)

    by_test :
        (b c : Bool)
        → (b ≡ true → (1 < m.len) × (cec_message_valid m ≡ true) × (cec_ready p ≡ true))
        → (c ≡ true → initiator_of m ≡ p.laddr)
        → (b ≡ false → IsStranger m p → ⊥)
        → (c ≡ false → IsStranger m p → ⊥)
        → Handled (
            if b
            then if c then yield_address e.now p else switch_opcode e (cec_id (opcode m)) m p
            else p)
    by_test false c f g x y = inr (x refl, same e m p)
    by_test true false f g x y =
        inr (y refl, switch_opcode-Kept e m p ((f refl).2) byte (cec_id (opcode m)))
    by_test true true f g x y = inl (
      ((f refl).0, (f refl).1, (f refl).2, g refl),
      record { address = refl; waits = refl; inactive = refl; quiet = (refl, refl, refl) },
    )
