-- ===== src/Host/Run/Laws.antt =====
-- What a run of the host command does with the television, and what its exit status means
-- (host/src/main.c, the end of main).
use cec_controller.Common.{
  ℕ, zero, suc, ◌+◌, ◌*◌, ◌≤◌, ◌≡◌, refl, subst, true, ◌&&◌, List, [], ◌∷◌, ◌++◌, Option, none,
  some, leb, ltb, Bool-cases, inl, inr, arith, Returns,
}
use cec_controller.Host.Reply.{Reply}
use cec_controller.Host.Checks.{reply_good}
use cec_controller.Host.Reader.{Wanted}
use cec_controller.Host.Reader.Laws.{IsWanted}
use cec_controller.Host.Port.{Fault, Answer, replied, fault}
use cec_controller.Host.Port.Laws.{Awaited, transact-Awaited}
use cec_controller.Host.Run.Success.{IsSuccess, reply_good-IsSuccess}
use cec_controller.Host.Run.{
  ended_run, Plan, and_more, is_time_out, Round, Attempt, Run, Lookup, ask, is_busy, operate,
  look_up, lookup_wire, run_operation, status_of, Command, name_of,
}

-- The lines of the loop and its last result: the line of the command, and again only behind a refusal
-- as busy.
pub data IsAsked (p : Plan) : List Attempt → Option Answer → Type 0 where
  unsent : IsAsked p [] none
  last :
      {a : Attempt}
      → a.wire ≡ p.wire
      → Awaited p.wanted a.answer
      → IsAsked p (a ∷ []) (some a.answer)
  busy :
      {a : Attempt} {rest : List Attempt} {result : Option Answer}
      → a.wire ≡ p.wire
      → is_busy a.answer ≡ true
      → IsAsked p rest result
      → IsAsked p (a ∷ rest) result

-- A run: behind an uncertain end, a lookup, once.
pub data IsRun (p : Plan) : List Attempt → Option Answer → Type 0 where
  asked :
      {attempts : List Attempt} {result : Option Answer}
      → IsAsked p attempts result
      → IsRun p attempts result
  looked_up :
      {attempts : List Attempt} {a : Attempt}
      → IsAsked p attempts (some (Answer.fault Fault.timed_out))
      → a.wire ≡ lookup_wire p.wanted.id
      → Awaited p.wanted a.answer
      → IsRun p (attempts ++ (a ∷ [])) (some a.answer)

abbrev pub Done : Plan → Run → Type 0
Done p run = IsAsked p run.attempts run.result

-- The clock at the test of the budget, with the pause of 100 ms between the rounds.
abbrev pub Paced : (ℕ → Round) → Type 0
Paced rounds = (k : ℕ) → (rounds k).check + 100 ≤ (rounds (k + 1)).check

and_more-Done :
    (p : Plan) (a : Attempt) (rest : Option Run)
    → a.wire ≡ p.wire
    → is_busy a.answer ≡ true
    → Returns (Done p) rest
    → Returns (Done p) (and_more a rest)
and_more-Done p a none w b r = r
and_more-Done p a (some run) w b r = IsAsked.busy w b r

operate-Done :
    (fuel : ℕ) (p : Plan) (rounds : ℕ → Round) (k : ℕ)
    → Paced rounds
    → p.deadline ≤ (rounds k).check + 100 * fuel
    → Returns (Done p) (operate (suc fuel) p rounds k)
unfolding operate
operate-Done zero p rounds k paced enough = rw (operate, beyond) IsAsked.unsent
  where
    beyond : leb p.deadline ((rounds k).check + p.limit_ms + 500) ≡ true
    beyond = ground arith
operate-Done (suc fuel) p rounds k paced enough =
    elim (Bool-cases (leb p.deadline ((rounds k).check + p.limit_ms + 500))) [
      | inl beyond ↦ rw (operate, beyond) IsAsked.unsent
      | inr room ↦ elim (Bool-cases (is_busy attempt.answer && ltb (rounds k).after p.deadline)) [
        | inl again ↦
            rw (operate, room, again)
              (and_more-Done p attempt (operate (suc fuel) p rounds (k + 1)) refl (ground arith)
                (operate-Done fuel p rounds (k + 1) paced (omega (arith, paced k, enough))))
        | inr ended ↦ rw (operate, room, ended) (IsAsked.last refl awaited)
      ]
    ]
  where
    attempt : Attempt
    attempt = ask p.wanted ((rounds k).start + p.limit_ms + 500) p.wire (rounds k).exchange

    awaited : Awaited p.wanted attempt.answer
    awaited =
        transact-Awaited p.wanted ((rounds k).start + p.limit_ms + 500) p.wire (rounds k).exchange

time_out_eq :
    (result : Option Answer)
    → is_time_out result ≡ true
    → result ≡ some (Answer.fault Fault.timed_out)
time_out_eq none h = ground arith
time_out_eq (some (replied r)) h = ground arith
time_out_eq (some (fault Fault.timed_out)) h = refl
time_out_eq (some (fault Fault.no_device)) h = ground arith
time_out_eq (some (fault Fault.unsupported)) h = ground arith
time_out_eq (some (fault Fault.connection_reset)) h = ground arith
time_out_eq (some (fault (Fault.other e))) h = ground arith

look_up-IsRun :
    (p : Plan) (l : Lookup) (run : Run)
    → Done p run
    → IsRun p (look_up p l run).attempts (look_up p l run).result
unfolding look_up
look_up-IsRun p l run h =
    elim (Bool-cases (is_time_out run.result && ltb (l.check + 1000) p.deadline)) [
      | inl uncertain ↦
          rw (look_up, uncertain)
            (IsRun.looked_up
              (subst (IsAsked p run.attempts) (time_out_eq run.result (ground arith)) h) refl
              (transact-Awaited p.wanted (l.start + 1000) (lookup_wire p.wanted.id) l.exchange))
      | inr certain ↦ rw (look_up, certain) (IsRun.asked h)
    ]

-- The last result of a run is a fault, or a reply that is waited for.
AwaitedLast : Wanted → Option Answer → Type 0
AwaitedLast w none = Unit
AwaitedLast w (some a) = Awaited w a

IsAsked-AwaitedLast :
    (p : Plan) {attempts : List Attempt} {result : Option Answer}
    → IsAsked p attempts result
    → AwaitedLast p.wanted result
unfolding AwaitedLast
IsAsked-AwaitedLast p IsAsked.unsent = tt
IsAsked-AwaitedLast p (IsAsked.last w a) = a
IsAsked-AwaitedLast p (IsAsked.busy w b rest) = IsAsked-AwaitedLast p rest

IsRun-AwaitedLast :
    (p : Plan) {attempts : List Attempt} {result : Option Answer}
    → IsRun p attempts result
    → AwaitedLast p.wanted result
unfolding AwaitedLast
IsRun-AwaitedLast p (IsRun.asked h) = IsAsked-AwaitedLast p h
IsRun-AwaitedLast p (IsRun.looked_up h w a) = a

-- A run that has ended.
pub record IsOutcome (c : Command) (p : Plan) (outcome : ℕ × Run) : Type 0 where
  pub sends : IsRun p (outcome.1.attempts) (outcome.1.result)
  pub success :
      outcome.0 ≡ 0
      → (r : Reply) × (outcome.1.result ≡ some (Answer.replied r))
        × IsWanted p.wanted r
        × (r.ok ≡ true)
        × IsSuccess (name_of c) r

status_of-IsSuccess :
    (c : Command) (p : Plan) (result : Option Answer)
    → p.wanted.command ≡ name_of c
    → AwaitedLast p.wanted result
    → status_of result ≡ 0
    → (r : Reply) × (result ≡ some (Answer.replied r))
      × IsWanted p.wanted r
      × (r.ok ≡ true)
      × IsSuccess (name_of c) r
unfolding status_of AwaitedLast
status_of-IsSuccess c p none e a h = ground arith
status_of-IsSuccess c p (some (fault f)) e a h = ground arith
status_of-IsSuccess c p (some (replied r)) e a h = (
  r,
  refl,
  a,
  ok,
  reply_good-IsSuccess c r (a.good.0) (subst (λ t. reply_good t (r, a.good.0) ≡ true) e (a.good.1))
      ok,
)
  where
    ok : r.ok ≡ true
    ok = ground arith

-- The limit of 40 seconds and the pauses of 100 ms leave room for 401 rounds: a run ends. It sends the
-- line of the command, again only when the controller has refused it as busy, and after a time-out
-- only a lookup of the result, once. The exit status 0 is given only for a success of the controller
-- with the id and from the session of the run, which says that the television has reported the state
-- that the command is to bring about, and for `on` also that the source is announced and the route
-- confirmed.
pub run_operation-IsOutcome :
    (c : Command) (p : Plan) (rounds : ℕ → Round) (l : Lookup)
    → p.wanted.command ≡ name_of c
    → Paced rounds
    → p.deadline ≤ (rounds 0).check + 40000
    → Returns (IsOutcome c p) (run_operation 401 p rounds l)
unfolding run_operation
run_operation-IsOutcome c p rounds l command paced limit =
    go (operate 401 p rounds 0) (operate-Done 400 p rounds 0 paced limit)
  where
    go : (run : Option Run) → Returns (Done p) run → Returns (IsOutcome c p) (ended_run p l run)
    go none h = h
    go (some run) h = record {
      sends = look_up-IsRun p l run h;
      success =
          status_of-IsSuccess c p ((look_up p l run).result) command
            (IsRun-AwaitedLast p (look_up-IsRun p l run h));
    }
