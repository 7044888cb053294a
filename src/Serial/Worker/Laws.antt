-- ===== src/Serial/Worker/Laws.antt =====
-- The worker serves each request.
use cec_controller.Common.{
  ℕ, ◌+◌, ◌/◌, ◌%◌, ◌≤◌, ◌<◌, ◌≡◌, refl, Bool, true, false, ◌&&◌, Option, none, some, if◌then◌else◌,
  arith, ◌∙◌, ◌⊎◌, Bool-cases, inl, inr, length, get_or, get_or-set_self, Returns, ltb, ◌∷◌, u32,
  sub64,
}
use cec_controller.Control.{ControlResult, initial_result}
use cec_controller.Task.{cec_ready}
use cec_controller.Serial.{Operation, not_retained, Serial}
use cec_controller.Serial.Bus.{Link, Context, uptime_ms, wait_ready, run_operation, limit_of}
use cec_controller.Serial.Reply.{entry_of, retain, finish_operation, remember_address}
use cec_controller.Serial.Worker.{context_of, may_run, end_operation, operate, operation_worker}
use cec_controller.Serial.Worker.Ends.{PacedLink, Ends, wait_total, run-Ends}

-- The operation of the worker, for a state in which the wait has ended: it runs when there is an
-- address and a session and the limit has not passed; else the result is the first one.
pub data Ran {S : Type 0} (l : Link S) (request : Operation) (type started deadline : ℕ) (s : S)
    : ControlResult × Context S → Type 0 where
  ran :
      {outcome : ControlResult × Context S}
      → cec_ready (l.task s) ≡ true
      → l.connected s ≡ true
      → (uptime_ms l s).0 < deadline
      → run_operation l request type deadline (context_of l started (uptime_ms l s).1)
        ≡ some outcome
      → Ran l request type started deadline s outcome
  too_late :
      cec_ready (l.task s) ≡ true
      → l.connected s ≡ true
      → deadline ≤ (uptime_ms l s).0
      → Ran l request type started deadline s
          (initial_result, context_of l started (uptime_ms l s).1)
  no_session :
      (cec_ready (l.task s) ≡ false) ⊎ (l.connected s ≡ false)
      → Ran l request type started deadline s (initial_result, context_of l started s)

-- The result with the time from the start of the request.
abbrev pub timed : {S : Type 0} → Link S → ℕ → ControlResult × Context S → ControlResult
timed l started (r, c) = record r {
  elapsed_ms = u32 (sub64 (uptime_ms l c.link).0 (started / 1000));
}

-- What a round of the worker leaves, for a state in which the wait has ended: the request has ended,
-- the result of its operation stands in the ring at the place that was next, and the text of the
-- result is the last one printed.
pub record Served {S : Type 0} (l : Link S) (request : Operation) (started deadline : ℕ) (s : S)
    (p q : Serial) : Type 0 where
  pub idle : q.operation_busy ≡ false
  pub empty : q.pending ≡ none
  pub next : q.retained_next ≡ (p.retained_next + 1) % 8
  pub outcome : ControlResult × Context S
  pub made : Ran l request p.config.device_type started deadline s outcome
  pub kept :
      get_or q.retained p.retained_next not_retained
      ≡ entry_of p.session_id request (timed l started outcome)
  pub shown : q.printed ≡ (entry_of p.session_id request (timed l started outcome)).text ∷ p.printed

remember_same :
    (run : Bool) (r : Operation) (p : Serial)
    → let q = remember_address run r p in
      (q.retained ≡ p.retained)
      × (q.retained_next ≡ p.retained_next)
      × (q.pending ≡ p.pending)
      × (q.session_id ≡ p.session_id)
      × (q.printed ≡ p.printed)
remember_same run r p = ground arith

module _ {S : Type 0} (l : Link S) (time : S → ℕ) (paced : PacedLink l time) where
  module _ (request : Operation) (started deadline : ℕ) (s : S)
      (o : ControlResult × Context S) where
    finish-plain :
        (p : Serial)
        → Ran l request p.config.device_type started deadline s o
        → p.pending ≡ none
        → p.retained_next < length p.retained
        → (q : Serial) → q.retained ≡ p.retained
        → q.retained_next ≡ p.retained_next
        → q.pending ≡ p.pending
        → q.session_id ≡ p.session_id
        → q.printed ≡ p.printed
        → Served l request started deadline s p (finish_operation request (timed l started o) q)
    unfolding finish_operation retain
    finish-plain p made empty inside q a b c d e = record {
      idle = refl;
      empty = c ∙ empty;
      next = rw b refl;
      outcome = o;
      made = made;
      kept =
          rw (a, b, d)
            (get_or-set_self p.retained p.retained_next
              (entry_of p.session_id request (timed l started o)) not_retained inside);
      shown = rw (d, e) refl;
    }

    finish-Served :
        (run : Bool) (p : Serial)
        → Ran l request p.config.device_type started deadline s o
        → p.pending ≡ none
        → p.retained_next < length p.retained
        → Served l request started deadline s p
            (finish_operation request (timed l started o) (remember_address run request p))
    finish-Served run p made empty inside =
        let (a, b, c, d, e) = remember_same run request p in
        finish-plain p made empty inside (remember_address run request p) a b c d e

  -- What the test for the operation gives.
  abbrev attempted : Operation → ℕ → ℕ → ℕ → Bool × S → Option (ControlResult × Context S)
  attempted request type started deadline run =
      if run.0
      then run_operation l request type deadline (context_of l started run.1)
      else some (initial_result, context_of l started run.1)

  run-Ran :
      (request : Operation) (type started deadline : ℕ) (s : S)
      → Returns
          (Ran l request type started deadline s)
          (attempted request type started deadline (may_run l deadline s))
  run-Ran request type started deadline s =
      elim (Bool-cases (cec_ready (l.task s) && l.connected s)) [
        | inr absent ↦ rw absent (Ran.no_session (ground arith))
        | inl session ↦ elim (Bool-cases (ltb (uptime_ms l s).0 deadline)) [
          | inr late ↦
              rw (session, late) (Ran.too_late (ground arith) (ground arith) (ground arith))
          | inl early ↦
              rw (session, early)
                (go (run_operation l request type deadline (context_of l started (uptime_ms l s).1))
                  refl
                  (run-Ends l time paced request type deadline
                    (context_of l started (uptime_ms l s).1))
                  session early)
        ]
      ]
    where
      go :
          (o : Option (ControlResult × Context S))
          → run_operation l request type deadline (context_of l started (uptime_ms l s).1) ≡ o
          → Ends o
          → (cec_ready (l.task s) && l.connected s) ≡ true
          → ltb (uptime_ms l s).0 deadline ≡ true
          → Returns (Ran l request type started deadline s) o
      go none e h m k = h
      go (some outcome) e h m k = Ran.ran (ground arith) (ground arith) (ground arith) e

  operate-Served :
      (request : Operation) (started deadline : ℕ) (p : Serial) (s : S)
      → p.pending ≡ none
      → p.retained_next < length p.retained
      → Returns
          (λ r. Served l request started deadline s p r.0)
          (operate l request started deadline p s)
  unfolding operate
  operate-Served request started deadline p s empty inside =
      go (attempted request p.config.device_type started deadline (may_run l deadline s))
        (run-Ran request p.config.device_type started deadline s)
    where
      go :
          (o : Option (ControlResult × Context S))
          → Returns (Ran l request p.config.device_type started deadline s) o
          → Returns
              (λ (r : Serial × S). Served l request started deadline s p r.0)
              (elim o [
                | none ↦ none
                | some outcome ↦
                    some (end_operation l request started (may_run l deadline s).0 p outcome)
              ])
      go none e = e
      go (some outcome) made =
          finish-Served request started deadline s outcome (may_run l deadline s).0 p made empty
            inside

Returns-map :
    {A : Type 0} {P Q : A → Type 0} (o : Option A)
    → ((a : A) → P a → Q a)
    → Returns P o
    → Returns Q o
Returns-map none f v = v
Returns-map (some a) f v = f a v

-- On a link whose time does not run backwards, which may pass at any call and at any reading of the
-- clock, and whose delays take their time: when a request is queued and the next place is inside of the
-- ring, the wait for an address ends in some state, and the round of the worker comes to its end, for
-- any command and whatever the bus answers. The worker is idle then and the queue is empty. The result
-- of the operation of this request, run from that state if there is an address, a session and time
-- left, stands at that place with the time that has passed, and its text is printed last.
pub operation_worker-Served :
    {S : Type 0} (l : Link S) (time : S → ℕ) (p : Serial) (s : S) (request : Operation)
    → PacedLink l time
    → p.pending ≡ some request
    → p.retained_next < length p.retained
    → let started = l.time_us s in
      let deadline = started.0 / 1000 + limit_of l request.command in
      (s' : S) × (wait_ready l deadline started.1 ≡ some s')
      × Returns (λ r. Served l request started.0 deadline s' p r.0) (operation_worker l p s)
unfolding operation_worker
operation_worker-Served l time p s request paced queued inside =
    let started = l.time_us s in
    let deadline = started.0 / 1000 + limit_of l request.command in
    let (s', e, u) = wait_total l time paced deadline started.1 in
    let empty = record p { pending = none } in
    (
      s',
      e,
      rw (operation_worker, queued, e)
          (Returns-map {P = λ r. Served l request started.0 deadline s' empty r.0}
            {Q = λ r.
              Served l request started.0 deadline s' (record p { pending = some request }) r.0}
            _
            (λ r v. record {
              idle = v.idle;
              empty = v.empty;
              next = v.next;
              outcome = v.outcome;
              made = v.made;
              kept = v.kept;
              shown = v.shown;
            })
            (operate-Served l time paced request started.0 deadline empty s' refl inside)),
    )
