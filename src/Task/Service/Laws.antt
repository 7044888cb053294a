-- ===== src/Task/Service/Laws.antt =====
-- What a client of the transmission queue may rely on.
use cec_controller.Common.{
  ℕ, ◌+◌, ◌*◌, ◌-◌, ◌/◌, ◌≤◌, ◌<◌, ◌≡◌, ◌≢◌, refl, ap, ◌∙◌, Bool, true, false, [], ◌∷◌, ◌++◌, All,
  Option, none, some, arith, ◌⊎◌, inl, inr, if◌then◌else◌, bit_or, bit_or-byte, u32,
}
use cec_controller.Message.{TxResult, tx_code, initiator_of}
use cec_controller.Task.{Task, cec_ready, notify_tx}
use cec_controller.Task.Service.{Request, Wire, accepted, answer, transmit, service_tx_request}
use cec_controller.Task.Client.{next_generation, Rounds, wait_answer, settle}

tx_code_bounds : (r : TxResult) → (1 ≤ tx_code r) × (tx_code r ≤ 6)
unfolding tx_code
tx_code_bounds r = ground arith

-- What a request leads to.
pub record Served (wire : Wire) (now : ℕ) (r : Request) (p q : Task) : Type 0 where
  pub answered :
      (value : ℕ) × (result : TxResult) × (q.notified
        ≡ (r.requester, notify_tx, value) ∷ p.notified)
      × (value ≡ r.id * 256 + tx_code result)
      × (((q.sent ≡ p.sent) × (result ≡ TxResult.timeout))
          ⊎ ((q.sent ≡ r.message ∷ p.sent)
              × (result ≡ (wire r.message (u32 ((r.deadline - now) / 1000))).0)
              × (now < r.deadline)
              × (initiator_of r.message ≡ p.laddr)
              × (r.id ≢ p.cancelled_tx)
              × (0 < p.laddr)
              × (p.laddr < 15)))
  pub kept : (q.laddr ≡ p.laddr) × (q.waiter ≡ p.waiter) × (q.source_active ≡ p.source_active)

-- A request with a number of 24 bits is answered once, with its number and a result. It goes on the
-- wire only before its deadline, from our own address, and if its client still waits; otherwise
-- nothing is sent and the result is a time-out.
pub service_tx_request-Served :
    (wire : Wire) (now : ℕ) (r : Request) (p : Task)
    → r.id < 16777216
    → Served wire now r p ((service_tx_request wire now (some r) p).1)
unfolding service_tx_request cec_ready transmit
service_tx_request-Served wire now r p h = by_test (accepted now r p) (λ v. v)
  where
    value_of :
        (result : TxResult)
        → bit_or (u32 (r.id * 256)) (tx_code result) ≡ r.id * 256 + tx_code result
    value_of result =
        ap (λ x. bit_or x (tx_code result)) (omega arith)
        ∙ bit_or-byte r.id (tx_code result) (omega (arith, tx_code_bounds result))

    by_test :
        (b : Bool)
        → (b ≡ true → accepted now r p ≡ true)
        → Served wire now r p (
            answer r
              ((if b then transmit wire now r p else (TxResult.timeout, p)).0)
              ((if b then transmit wire now r p else (TxResult.timeout, p)).1))
    by_test false v = record {
      answered = (_, TxResult.timeout, refl, value_of TxResult.timeout, inl (refl, refl));
      kept = (refl, refl, refl);
    }
    by_test true v = record {
      answered = (
        _,
        (wire r.message (u32 ((r.deadline - now) / 1000))).0,
        refl,
        value_of _,
        inr (
          refl,
          refl,
          ground (arith, v refl),
          ground (arith, v refl),
          ground (arith, v refl),
          ground (arith, v refl),
          ground (arith, v refl),
        ),
      );
      kept = (refl, refl, refl);
    }

-- The request numbers are from 1 to 2 ^ 24 - 1 and follow one another without a repetition.
next_generation_bounds :
    (g : ℕ)
    → g < 16777216
    → (1 ≤ next_generation g) × (next_generation g < 16777216) × (next_generation g ≢ g)
unfolding next_generation
next_generation_bounds g h = ground arith

-- A round that does not end the wait: before the deadline, a time-out or the answer to another request.
abbrev pub IsStale : ℕ → ℕ → ℕ × Option ℕ → Type 0
IsStale id deadline (now, none) = now < deadline
IsStale id deadline (now, some word) = (now < deadline) × (word / 256 ≢ id)

-- Time-outs and answers to other requests before the deadline are passed over, and a client
-- whose answer comes before the deadline reads its own result.
pub wait_answer-own :
    (id deadline now : ℕ) (stale rest : Rounds) (result : TxResult)
    → All (IsStale id deadline) stale
    → now < deadline
    → wait_answer id deadline (stale ++ (now, some (id * 256 + tx_code result)) ∷ rest)
      ≡ some (some (tx_code result))
unfolding wait_answer
wait_answer-own id deadline now [] rest result h lt = ground (arith, tx_code_bounds result)
wait_answer-own id deadline now ((t, none) ∷ stale) rest result h lt =
    ground (arith, wait_answer-own id deadline now stale rest result (h.1) lt)
wait_answer-own id deadline now ((t, some word) ∷ stale) rest result h lt =
    ground (arith, wait_answer-own id deadline now stale rest result (h.1) lt)

-- The wait ends at the deadline.
wait_answer-expired :
    (id deadline now : ℕ) (stale rest : Rounds) (o : Option ℕ)
    → All (IsStale id deadline) stale
    → deadline ≤ now
    → wait_answer id deadline (stale ++ (now, o) ∷ rest) ≡ some none
unfolding wait_answer
wait_answer-expired id deadline now [] rest none h le = ground arith
wait_answer-expired id deadline now [] rest (some v) h le = ground arith
wait_answer-expired id deadline now ((t, none) ∷ stale) rest o h le =
    ground (arith, wait_answer-expired id deadline now stale rest o (h.1) le)
wait_answer-expired id deadline now ((t, some word) ∷ stale) rest o h le =
    ground (arith, wait_answer-expired id deadline now stale rest o (h.1) le)

-- A client whose deadline passes gets CEC_TX_TIMEOUT, and its request, if it is still in the queue, is
-- never put on the wire.
pub settle-cancelled :
    (wire : Wire) (later now : ℕ) (stale rest : Rounds) (o : Option ℕ) (r : Request) (p : Task)
    → All (IsStale r.id r.deadline) stale
    → r.deadline ≤ now
    → (wait_answer r.id r.deadline (stale ++ (now, o) ∷ rest) ≡ some none)
      × ((settle r none p).0 ≡ tx_code TxResult.timeout)
      × ((service_tx_request wire later (some r) ((settle r none p).1)).1.sent ≡ p.sent)
unfolding settle service_tx_request transmit
settle-cancelled wire later now stale rest o r p h le =
    (wait_answer-expired r.id r.deadline now stale rest o h le, refl, ground arith)
