-- ===== src/Frame/Rx/Reception.antt =====
-- The receiver reads a frame of nominal shape.
use cec_controller.Common.{
  ℕ, ◌+◌, ◌*◌, ◌≤◌, ◌<◌, ◌≡◌, refl, Bool, true, false, not, List, [], ◌∷◌, ◌++◌, some, arith,
  length, get_or, set, replicate, map, ◌==◌, if◌then◌else◌, all_below, all_below_sound, ◌⊎◌, inl,
  inr, ap, ◌∙◌, get_or-set_self, set-set, ==_iff,
}
use mathlib.Core.List.{map-append}
use cec_controller.Validate.{cec_message_valid}
use cec_controller.Frame.Wave.{Change, bit_set, lower_bits, wave-append, low_time, wave, byte_bits}
use cec_controller.Frame.Rx.{
  RxState, start, bit_fall, eom_fall, ack_fall, Port, Received, RxEvent, edge, rx_reset,
  frame_rx_isr, rx_step, rx_run, shift_in, on_edge, on_fall, fall_to, store_bit, store_eom, accept,
  begin_frame, drive_ack,
}

-- The interrupt that a change of the line raises, on a platform with an alarm and room to give.
abbrev pub to_event : ℕ → Change → RxEvent
to_event id c =
    edge (record { now = c.at; alarm = some id; room = true }) true (not c.falls) c.falls

-- The receiver waits for the fall that begins the next bit, at time t.
pub record Ready (s : RxState) (began t : ℕ) (bytes : List ℕ) (len bit : ℕ) (first : Bool)
    (accepted : List Received) (p : Port) : Type 0 where
  pub state : p.rx.state ≡ s
  pub since : p.rx.began ≡ began
  pub due : p.rx.start + (if first then 4500 else 2400) ≡ t
  pub is_first : p.rx.first ≡ first
  pub held : p.rx.message.bytes ≡ bytes
  pub count : p.rx.message.len ≡ len
  pub place : p.rx.bit ≡ bit
  pub queue : p.accepted ≡ accepted

-- The times of a frame that is under way.
pub record UnderWay (began t : ℕ) : Type 0 where
  pub after : began + 4500 ≤ t
  pub before : t + 1500 ≤ began + 450000
  pub clock : t + 1500 < 18446744073709551616

module _ (id began : ℕ) (accepted : List Received) where
  abbrev pub after_bit : ℕ → Bool → Port → Port
  after_bit t one p =
      rx_run
        (map (to_event id)
          (record { at = t; falls = true } ∷ record { at = t + low_time one; falls = false } ∷ []))
        p

  data_bit :
      (t : ℕ) (bytes : List ℕ) (len bit : ℕ) (first one : Bool) (p : Port)
      → Ready bit_fall began t bytes len bit first accepted p
      → UnderWay began t
      → len < 16
      → bit < 7
      → Ready bit_fall began
          (t + 2400)
          (set bytes len (shift_in (get_or bytes len 0) one))
          len
          (bit + 1)
          false
          accepted
          (after_bit t one p)
  unfolding rx_run frame_rx_isr rx_step on_edge on_fall fall_to store_bit
  data_bit t bytes len bit first one p r u h k = ground arith

  last_bit :
      (t : ℕ) (bytes : List ℕ) (len : ℕ) (one : Bool) (p : Port)
      → Ready bit_fall began t bytes len 7 false accepted p
      → UnderWay began t
      → len < 16
      → Ready eom_fall began
          (t + 2400)
          (set bytes len (shift_in (get_or bytes len 0) one))
          (len + 1)
          0
          false
          accepted
          (after_bit t one p)
  unfolding rx_run frame_rx_isr rx_step on_edge on_fall fall_to store_bit
  last_bit t bytes len one p r u h = ground arith

  pub eom_bit :
      (t : ℕ) (bytes : List ℕ) (len : ℕ) (one : Bool) (p : Port)
      → Ready eom_fall began t bytes len 0 false accepted p
      → UnderWay began t
      → (one ≡ true) ⊎ (len < 16)
      → Ready ack_fall began (t + 2400) bytes len 0 false accepted (after_bit t one p)
        × ((after_bit t one p).rx.eom ≡ one)
  unfolding rx_run frame_rx_isr rx_step on_edge on_fall fall_to store_eom
  eom_bit t bytes len one p r u h = ground arith

  pub ack_bit_more :
      (t : ℕ) (bytes : List ℕ) (len : ℕ) (one : Bool) (p : Port)
      → Ready ack_fall began t bytes len 0 false accepted p
      → p.rx.eom ≡ false
      → UnderWay began t
      → Ready bit_fall began (t + 2400) bytes len 0 false accepted (after_bit t one p)
  unfolding rx_run frame_rx_isr rx_step on_edge on_fall fall_to drive_ack
  ack_bit_more t bytes len one p r e u = ground arith

  pub ack_bit_end :
      (t : ℕ) (bytes : List ℕ) (len : ℕ) (one : Bool) (p : Port)
      → Ready ack_fall began t bytes len 0 false accepted p
      → p.rx.eom ≡ true
      → UnderWay began t
      → cec_message_valid (record { bytes = bytes; len = len }) ≡ true
      → ((after_bit t one p).accepted
          ≡ accepted
            ++ record { message = record { bytes = bytes; len = len }; at = t + low_time one } ∷ [])
        × ((after_bit t one p).rx.state ≡ start)
  unfolding rx_run frame_rx_isr rx_step on_edge on_fall fall_to drive_ack accept rx_reset
  ack_bit_end t bytes len one p r e u v = ground arith

  pub start_pulse :
      (p : Port)
      → p.rx.state ≡ start
      → p.accepted ≡ accepted
      → began + 6000 < 18446744073709551616
      → Ready bit_fall began (began + 4500) (replicate 16 0) 0 0 true accepted (
          rx_run
            (map (to_event id) (
              record { at = began; falls = true }
              ∷ record { at = began + 3700; falls = false }
              ∷ []))
            p)
  unfolding rx_run frame_rx_isr rx_step on_edge begin_frame
  start_pulse p s q c = ground arith

-- The bits of a byte, shifted in one by one.
shift_all : ℕ → List Bool → ℕ
shift_all c [] = c
shift_all c (b ∷ bs) = shift_all (shift_in c b) bs

shift_table : all_below 256 (λ x. shift_all 0 (byte_bits x) == x) ≡ true
unfolding all_below shift_all shift_in
shift_table = refl

shift_all-byte_bits : (x : ℕ) → x < 256 → shift_all 0 (byte_bits x) ≡ x
shift_all-byte_bits x h = (==_iff _ x).0 (all_below_sound 256 _ x shift_table h)

pub rx_run-append :
    (xs ys : List RxEvent) (p : Port) → rx_run (xs ++ ys) p ≡ rx_run ys (rx_run xs p)
unfolding rx_run
rx_run-append [] ys p = refl
rx_run-append (x ∷ xs) ys p = rx_run-append xs ys (rx_step x p)

module _ (id began : ℕ) (accepted : List Received) where
  pub run_bit :
      (t : ℕ) (b : Bool) (bs : List Bool) (p : Port)
      → rx_run (map (to_event id) (wave t (b ∷ bs))) p
        ≡ rx_run (map (to_event id) (wave (t + 2400) bs)) (after_bit id began accepted t b p)
  unfolding wave rx_run
  run_bit t b bs p = refl

  -- The rest of a byte, from its bit number `bit` on.
  data_bits :
      (bs : List Bool) (t : ℕ) (base : List ℕ) (len bit c : ℕ) (first : Bool) (b : Bool) (p : Port)
      → Ready bit_fall began t (set base len c) len bit first accepted p
      → bit + length (b ∷ bs) ≡ 8
      → (first ≡ false) ⊎ (bit ≡ 0)
      → UnderWay began t
      → UnderWay began (t + 2400 * length bs)
      → len < 16
      → len < length base
      → Ready eom_fall began
          (t + 2400 * length (b ∷ bs))
          (set base len (shift_all c (b ∷ bs)))
          (len + 1)
          0
          false
          accepted
          (rx_run (map (to_event id) (wave t (b ∷ bs))) p)
  unfolding wave shift_all
  data_bits [] t base len bit c first b p r e f u w h k = ground (
    arith,
    last_bit id began accepted t (set base len c) len b p,
    get_or-set_self base len c 0 k,
    set-set base len c (shift_in c b),
  )
  data_bits (b' ∷ bs) t base len bit c first b p r e f u w h k =
      let v = data_bit id began accepted t (set base len c) len bit first b p r u h (omega arith) in
      let q = after_bit id began accepted t b p in
      let v' : Ready bit_fall began (t + 2400) (set base len (shift_in c b)) len (bit + 1) false
          accepted q =
        ground (arith, v, get_or-set_self base len c 0 k, set-set base len c (shift_in c b)) in
      ground (
        arith,
        run_bit t b (b' ∷ bs) p,
        data_bits bs (t + 2400) base len (bit + 1) (shift_in c b) false b' q v' (omega arith)
            (inl refl) (omega arith) (omega arith) h k,
      )

  -- A whole byte.
  pub data_byte :
      (x t : ℕ) (base : List ℕ) (len : ℕ) (first : Bool) (p : Port)
      → x < 256
      → Ready bit_fall began t base len 0 first accepted p
      → get_or base len 0 ≡ 0
      → set base len 0 ≡ base
      → UnderWay began t
      → UnderWay began (t + 16800)
      → len < 16
      → len < length base
      → Ready eom_fall began
          (t + 19200)
          (set base len x)
          (len + 1)
          0
          false
          accepted
          (rx_run (map (to_event id) (wave t (byte_bits x))) p)
  data_byte x t base len first p small r z same u w h k =
      let r' : Ready bit_fall began t (set base len 0) len 0 first accepted p = rw same r in
      ground (
        arith,
        data_bits (lower_bits x) t base len 0 0 first (bit_set x 128) p r' (omega arith) (inr refl)
            u (omega arith) h k,
        shift_all-byte_bits x small,
      )

  pub run_byte :
      (t x : ℕ) (e a : Bool) (more : List Bool) (p : Port)
      → rx_run (map (to_event id) (wave t (byte_bits x ++ e ∷ a ∷ more))) p
        ≡ rx_run (map (to_event id) (wave (t + 24000) more)) (
            after_bit id began accepted (t + 21600) a (
              after_bit id began accepted
                (t + 19200)
                e
                (rx_run (map (to_event id) (wave t (byte_bits x))) p)))
  run_byte t x e a more p =
      let q = rx_run (map (to_event id) (wave t (byte_bits x))) p in
      let q' = after_bit id began accepted (t + 19200) e q in
      let eq1 : t + 19200 + 2400 ≡ t + 21600 = omega arith in
      let eq2 : t + 21600 + 2400 ≡ t + 24000 = omega arith in
      rw (wave-append t (byte_bits x) (e ∷ a ∷ more), map-append, rx_run-append)
        (run_bit (t + 19200) e (a ∷ more) q
          ∙ ap (λ s. rx_run (map (to_event id) (wave s (a ∷ more))) q') eq1
          ∙ run_bit (t + 21600) a more q'
          ∙ ap
              (λ s.
                rx_run (map (to_event id) (wave s more))
                  (after_bit id began accepted (t + 21600) a q'))
              eq2)
