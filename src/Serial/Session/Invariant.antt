-- ===== src/Serial/Session/Invariant.antt =====
-- What holds in every session: the ring, the queue and the flag agree.
use cec_controller.Common.{
  subst, ℕ, ◌<◌, ◌≡◌, ◌≢◌, refl, sym, ap, ◌∙◌, Bool, false, List, [], ◌∷◌, Option, none, some, inl,
  inr, arith, length, get_or, length-set,
}
use cec_controller.Config.{Config}
use cec_controller.Control.{ControlResult}
use cec_controller.Serial.{Operation, Retained, not_retained, Serial, start}
use cec_controller.Serial.Command.{find_retained, exec_tv}
use cec_controller.Serial.Command.Laws.{Queued, Step, exec_tv-Step}
use cec_controller.Serial.Reply.{remember_address, retain, entry_of, finish_operation}
use cec_controller.Serial.Session.{
  fresh, Event, command, take, finish, Session, take_from, finish_with, session_step, session_run,
}
use cec_controller.Serial.Session.Slots.{
  slot, ended_at, Holds, New, Distinct, find_retained-slot, retain-Holds, cons-Distinct, empty_slot,
  find_retained-found, back, within, order,
}

pub record Inv (s : Session) : Type 0 where
  pub eight : length s.serial.retained ≡ 8
  pub next : s.serial.retained_next < 8
  -- The flag is set while a request is queued or held.
  pub queued : s.serial.operation_busy ≡ false → (s.serial.pending ≡ none) × (s.running ≡ none)
  -- While the worker holds a request, the queue is empty.
  pub held : (r : Operation) → s.running ≡ some r → s.serial.pending ≡ none
  pub distinct : Distinct s.ended
  pub new_pending : (r : Operation) → s.serial.pending ≡ some r → r.id ≢ 0 → New r.id s.ended
  pub new_running : (r : Operation) → s.running ≡ some r → r.id ≢ 0 → New r.id s.ended
  pub holds : Holds s.serial.retained s.serial.retained_next s.ended

remember_same :
    (run : Bool) (r : Operation) (p : Serial)
    → let q = remember_address run r p in
      (q.retained ≡ p.retained)
      × (q.retained_next ≡ p.retained_next)
      × (q.operation_busy ≡ p.operation_busy)
remember_same run r p = ground arith

take_from-Inv :
    (run : Bool) (running pending : Option Operation) (s : Session)
    → s.running ≡ running
    → s.serial.pending ≡ pending
    → Inv s
    → Inv (take_from run running pending s)
unfolding take_from
take_from-Inv run none none s a b v = v
take_from-Inv run (some x) p s a b v = v
take_from-Inv run none (some r) s a b v =
    let same = remember_same run r s.serial in
    record {
      eight = ap length same.0 ∙ v.eight;
      next = subst (λ n. n < 8) (sym same.1) v.next;
      queued = λ idle. cc (b, (v.queued (sym same.2 ∙ idle)).0);
      held = λ other e. refl;
      distinct = v.distinct;
      new_pending = λ other e. cc e;
      new_running = λ other e. v.new_pending other (b ∙ e);
      holds =
          subst (λ (x : List Retained × ℕ). Holds x.0 x.1 s.ended)
            (λ i. (sym same.0 i, sym same.1 i)) v.holds;
    }

finish_with-Inv :
    (result : ControlResult) (running : Option Operation) (s : Session)
    → s.running ≡ running
    → Inv s
    → Inv (finish_with result running s)
unfolding finish_with finish_operation retain entry_of
finish_with-Inv result none s a v = v
finish_with-Inv result (some r) s a v = record {
  eight = length-set s.serial.retained s.serial.retained_next _ ∙ v.eight;
  next = omega arith;
  queued = λ idle. (v.held r a, refl);
  held = λ other e. cc e;
  distinct = cons-Distinct _ s.ended v.distinct (v.new_running r a);
  new_pending = λ other e. cc (e, v.held r a);
  new_running = λ other e. cc e;
  holds = retain-Holds s.serial.retained s.serial.retained_next s.ended _ v.eight v.next v.holds;
}

unfoldable pub operation_of : Operation → Option Operation → Operation
operation_of other none = other
operation_of other (some r) = r

-- An operation that a command queues has an id of its own.
pub Queued-New :
    (s : Session) (q : Serial) (r : Operation)
    → Inv s
    → Queued s.serial q r
    → r.id ≢ 0
    → New r.id s.ended
Queued-New s q r v h nz i a same = nz (
    sym (find_retained-slot s.serial.retained (slot s.serial.retained_next i) r.id inside at)
    ∙ h.new)
  where
    inside : slot s.serial.retained_next i < length s.serial.retained
    inside = let e = v.eight in let n = v.next in omega arith

    at : (get_or s.serial.retained (slot s.serial.retained_next i) not_retained).request.id ≡ r.id
    at = ap (λ (x : Retained). x.request.id) (v.holds i a) ∙ same

command-Inv : (s : Session) (q : Serial) → Inv s → Step s.serial q → Inv (record s { serial = q })
unfolding operation_of
command-Inv s q v (same, inl (pending, busy)) = record {
  eight = ap length same.0 ∙ v.eight;
  next = subst (λ n. n < 8) (sym same.1) v.next;
  queued = λ idle. (pending ∙ (v.queued (sym busy ∙ idle)).0, (v.queued (sym busy ∙ idle)).1);
  held = λ r e. pending ∙ v.held r e;
  distinct = v.distinct;
  new_pending = λ r e. v.new_pending r (sym pending ∙ e);
  new_running = v.new_running;
  holds =
      subst (λ (x : List Retained × ℕ). Holds x.0 x.1 s.ended) (λ i. (sym same.0 i, sym same.1 i))
        v.holds;
}
command-Inv s q v (same, inr (r, h)) = record {
  eight = ap length same.0 ∙ v.eight;
  next = subst (λ n. n < 8) (sym same.1) v.next;
  queued = λ idle. cc (idle, h.busy);
  held = λ other e. cc (e, (v.queued h.idle).1);
  distinct = v.distinct;
  new_pending = λ other e nz.
      subst (λ (x : Operation). x.id ≢ 0 → New x.id s.ended)
        (ap (operation_of r) (sym h.pending ∙ e)) (Queued-New s q r v h) nz;
  new_running = v.new_running;
  holds =
      subst (λ (x : List Retained × ℕ). Holds x.0 x.1 s.ended) (λ i. (sym same.0 i, sym same.1 i))
        v.holds;
}

session_step-Inv : (e : Event) (s : Session) → Inv s → Inv (session_step e s)
unfolding session_step
session_step-Inv (command d argv) s v =
    command-Inv s ((exec_tv d argv s.serial).1) v
      (exec_tv-Step d argv s.serial (λ idle. (v.queued idle).0))
session_step-Inv (take run) s v = take_from-Inv run s.running s.serial.pending s refl refl v
session_step-Inv (finish result) s v = finish_with-Inv result s.running s refl v

session_run-Inv : (es : List Event) (s : Session) → Inv s → Inv (session_run es s)
unfolding session_run
session_run-Inv [] s v = v
session_run-Inv (e ∷ es) s v = session_run-Inv es (session_step e s) (session_step-Inv e s v)

fresh-Inv : (random : ℕ) (loaded : Config) → Inv (fresh random loaded)
unfolding start
fresh-Inv random loaded = record {
  eight = refl;
  next = omega arith;
  queued = λ idle. (refl, refl);
  held = λ r e. refl;
  distinct = λ i j a b nz. absurd (nz refl);
  new_pending = λ r e. cc e;
  new_running = λ r e. cc e;
  holds = λ i a. empty_slot (slot 0 i);
}

-- The invariant of every session.
pub reached-Inv :
    (random : ℕ) (loaded : Config) (es : List Event) → Inv (session_run es (fresh random loaded))
reached-Inv random loaded es = session_run-Inv es (fresh random loaded) (fresh-Inv random loaded)

-- The result of each of the last eight requests that ended is what is found under its id.
pub latest-find :
    (s : Session)
    → Inv s
    → (i : ℕ) → i < 8
    → (ended_at s.ended i).request.id ≢ 0
    → find_retained (ended_at s.ended i).request.id s.serial.retained ≡ ended_at s.ended i
latest-find s v i a nz = elim (order (slot s.serial.retained_next at.0) i) [
  | inl below ↦
      absurd (
        v.distinct (slot s.serial.retained_next at.0) i below a (λ z. nz (sym same ∙ z)) (sym same))
  | inr (inl equal) ↦ sym at.2 ∙ there ∙ ap (ended_at s.ended) equal
  | inr (inr above) ↦
      absurd (v.distinct i (slot s.serial.retained_next at.0) above (omega arith) nz same)
]
  where
    id : ℕ
    id = (ended_at s.ended i).request.id

    found : (find_retained id s.serial.retained).request.id ≡ id
    found =
        find_retained-slot s.serial.retained (slot s.serial.retained_next i) id
          (let e = v.eight in let n = v.next in omega arith)
          (ap (λ (x : Retained). x.request.id) (v.holds i a))

    at :
        (j : ℕ) × (j < length s.serial.retained)
        × (get_or s.serial.retained j not_retained ≡ find_retained id s.serial.retained)
    at = find_retained-found s.serial.retained id nz found

    inside : at.0 < 8
    inside = subst (λ n. at.0 < n) v.eight at.1

    there :
        get_or s.serial.retained at.0 not_retained
        ≡ ended_at s.ended (slot s.serial.retained_next at.0)
    there =
        ap (λ k. get_or s.serial.retained k not_retained)
          (back s.serial.retained_next at.0 v.next inside)
        ∙ v.holds (slot s.serial.retained_next at.0) (within s.serial.retained_next at.0)

    same : (ended_at s.ended (slot s.serial.retained_next at.0)).request.id ≡ id
    same = ap (λ (x : Retained). x.request.id) (sym there ∙ at.2) ∙ found
