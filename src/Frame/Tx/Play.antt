-- ===== src/Frame/Tx/Play.antt =====
-- A transmission with punctual alarms draws its message on the line.
use cec_controller.Common.{
  ℕ, zero, suc, ◌+◌, ◌*◌, ◌-◌, ◌<◌, ◌≡◌, refl, sym, ◌∙◌, Bool, true, false, not, List, [], ◌∷◌,
  ◌++◌, arith, if◌then◌else◌, ltb,
}
use cec_controller.Message.{Message, TxResult}
use cec_controller.Frame.Wave.{Change, low_time, wave}
use cec_controller.Frame.Tx.{
  start_low, data_release, data_end, eom_release, ack_release, next, end, Driver, tx_begin,
  is_broadcast,
}
use cec_controller.Frame.Tx.Steps.{
  call, Here, data_one, start_low_step, start_release_step, data_low_step, release_one_step,
  sample_step, release_zero_step, data_end_step, byte_end_step, eom_release_step, ack_low_step,
  ack_release_step, ack_sample_step, next_step, end_step,
}

-- From time t on, the calls draw these changes of the line, and leave the driver like this.
pub data Plays (pulled : Bool) : ℕ → Driver → List Change → Driver → Type 0 where
  stop :
      {t : ℕ} {p : Driver}
      → (call pulled t p).1 ≡ 0
      → p.driven ≡ false
      → (call pulled t p).0.driven ≡ false
      → Plays pulled t p [] (call pulled t p).0
  quiet :
      {t : ℕ} {p : Driver} (w t' : ℕ) {cs : List Change} {q : Driver}
      → (call pulled t p).1 ≡ w
      → 0 < w
      → t + w ≡ t'
      → p.driven ≡ (call pulled t p).0.driven
      → Plays pulled t' (call pulled t p).0 cs q
      → Plays pulled t p cs q
  rises :
      {t : ℕ} {p : Driver} (w t' : ℕ) {cs : List Change} {q : Driver}
      → (call pulled t p).1 ≡ w
      → 0 < w
      → t + w ≡ t'
      → p.driven ≡ true
      → (call pulled t p).0.driven ≡ false
      → Plays pulled t' (call pulled t p).0 cs q
      → Plays pulled t p (record { at = t; falls = false } ∷ cs) q
  falls :
      {t : ℕ} {p : Driver} (w t' : ℕ) {cs : List Change} {q : Driver}
      → (call pulled t p).1 ≡ w
      → 0 < w
      → t + w ≡ t'
      → p.driven ≡ false
      → (call pulled t p).0.driven ≡ true
      → Plays pulled t' (call pulled t p).0 cs q
      → Plays pulled t p (record { at = t; falls = true } ∷ cs) q

-- How a transmission that is acknowledged leaves the driver.
abbrev pub Done : Driver → Type 0
Done q = (q.tx.active ≡ false) × (q.tx.result ≡ TxResult.ack) × (q.driven ≡ false)

-- From time t on, the calls draw these changes and come to an end with an acknowledged frame.
abbrev pub Ends : Bool → ℕ → Driver → List Change → Type 0
Ends pulled t p cs = (q : Driver) × Plays pulled t p cs q × Done q

module _ {pulled : Bool} {t : ℕ} {p : Driver} (w t' : ℕ) {cs : List Change} where
  Ends-quiet :
      (call pulled t p).1 ≡ w
      → 0 < w
      → t + w ≡ t'
      → p.driven ≡ (call pulled t p).0.driven
      → Ends pulled t' (call pulled t p).0 cs
      → Ends pulled t p cs
  Ends-quiet a b c d (q, plays, done) = (q, quiet w t' a b c d plays, done)

  Ends-rises :
      (call pulled t p).1 ≡ w
      → 0 < w
      → t + w ≡ t'
      → p.driven ≡ true
      → (call pulled t p).0.driven ≡ false
      → Ends pulled t' (call pulled t p).0 cs
      → Ends pulled t p (record { at = t; falls = false } ∷ cs)
  Ends-rises a b c d e (q, plays, done) = (q, rises w t' a b c d e plays, done)

  Ends-falls :
      (call pulled t p).1 ≡ w
      → 0 < w
      → t + w ≡ t'
      → p.driven ≡ false
      → (call pulled t p).0.driven ≡ true
      → Ends pulled t' (call pulled t p).0 cs
      → Ends pulled t p (record { at = t; falls = true } ∷ cs)
  Ends-falls a b c d e (q, plays, done) = (q, falls w t' a b c d e plays, done)

-- What is left to draw of some bits when the first of them has just begun.
abbrev rest_of : ℕ → Bool → List Bool → List Change
rest_of t b bs = record { at = t + low_time b; falls = false } ∷ wave (t + 2400) bs

module _ (pulled : Bool) (m : Message) (deadline : ℕ) where
  -- The bits of a byte below a place.
  abbrev below : ℕ → ℕ → List Bool
  below byte zero = []
  below byte (suc n) = data_one pulled m deadline byte n ∷ below byte n

  -- A data bit up to its end.
  play_data_end :
      (t byte bit : ℕ) (one : Bool) {cs : List Change} (p : Driver)
      → Here data_release m deadline byte bit t (t + low_time one) true p
      → p.tx.one ≡ one
      → t + 10000 < deadline
      → ((p' : Driver)
          → Here data_end m deadline byte bit t (t + 2400) false p'
          → Ends pulled (t + 2400) p' cs)
      → Ends pulled (t + low_time one) p (record { at = t + low_time one; falls = false } ∷ cs)
  play_data_end t byte bit true p h o d k =
      let (w, h1) = release_one_step pulled m deadline t byte bit p h o d in
      let p1 = (call pulled (t + 600) p).0 in
      let (w2, h2) = sample_step pulled m deadline t byte bit p1 h1 d in
      Ends-rises 450 (t + 1050) w (omega arith) (omega arith) h.drives h1.drives (
        Ends-quiet 1350 (t + 2400) w2 (omega arith) (omega arith) (h1.drives ∙ sym h2.drives)
          (k _ h2))
  play_data_end t byte bit false p h o d k =
      let (w, h1) = release_zero_step pulled m deadline t byte bit p h o d in
      Ends-rises 900 (t + 2400) w (omega arith) (omega arith) h.drives h1.drives (k _ h1)

  low_time_pos : (b : Bool) → 0 < low_time b
  low_time_pos b = ground arith

  -- The data bits of a byte, and then its end-of-message bit.
  play_data :
      (bit t byte : ℕ) (one last : Bool) (rest : List Bool) (p : Driver)
      → one ≡ data_one pulled m deadline byte bit
      → last ≡ not (ltb (byte + 1) m.len)
      → Here data_release m deadline byte bit t (t + low_time one) true p
      → p.tx.one ≡ one
      → t + 2400 * bit + 10000 < deadline
      → ((p' : Driver) (t' : ℕ)
          → t' ≡ t + 2400 * (bit + 1)
          → Here eom_release m deadline (byte + 1) 0 t' (t' + low_time last) true p'
          → Ends pulled (t' + low_time last) p' (rest_of t' last rest))
      → Ends pulled (t + low_time one) p (rest_of t one (below byte bit ++ last ∷ rest))
  unfolding wave
  play_data zero t byte one last rest p e l h o d k =
      play_data_end t byte 0 one p h o (omega arith) λ p' h'.
        let (w, h2) = byte_end_step pulled m deadline t byte last p' l h' (omega arith) in
        Ends-falls (low_time last) (t + 2400 + low_time last) w (low_time_pos last) refl h'.drives
          h2.drives (k _ (t + 2400) (omega arith) h2)
  play_data (suc bit) t byte one last rest p e l h o d k =
      play_data_end t byte (suc bit) one p h o (omega arith) λ p' h'.
        let one' = data_one pulled m deadline byte bit in
        let h'' : Here data_end m deadline byte (bit + 1) t (t + 2400) false p' =
          ground (arith, h') in
        let (w, h2, o2) =
          data_end_step pulled m deadline t byte bit one' p' refl h'' (omega arith) in
        Ends-falls (low_time one') (t + 2400 + low_time one') w (low_time_pos one') refl h'.drives
          h2.drives
          (play_data bit (t + 2400) byte one' last rest _ refl l h2 o2 (omega arith)
            (λ p'' t' e' h3. k p'' t' (omega arith) h3))

  -- An end-of-message bit and its acknowledge bit.
  play_eom :
      (t byte : ℕ) (last : Bool) (rest : List Bool) (p : Driver)
      → Here eom_release m deadline byte 0 t (t + low_time last) true p
      → t + 10000 < deadline
      → ((p' : Driver)
          → Here ack_release m deadline byte 0 (t + 2400) (t + 2400 + 600) true p'
          → Ends pulled (t + 2400 + 600) p' (rest_of (t + 2400) true rest))
      → Ends pulled (t + low_time last) p (rest_of t last (true ∷ rest))
  unfolding wave
  play_eom t byte last rest p h d k =
      let (w, h1) = eom_release_step pulled m deadline t byte last p h d in
      let (w2, h2) = ack_low_step pulled m deadline t byte _ h1 d in
      Ends-rises (2400 - low_time last) (t + 2400) (omega (arith, w)) (ground arith) (ground arith)
        h.drives h1.drives
        (Ends-falls 600 (t + 2400 + 600) w2 (omega arith) (omega arith) h1.drives h2.drives
          (k _ h2))

  play_ack :
      (t byte : ℕ) {cs : List Change} (p : Driver)
      → pulled ≡ not (is_broadcast m)
      → Here ack_release m deadline byte 0 t (t + 600) true p
      → t + 10000 < deadline
      → ((p' : Driver)
          → Here (if ltb byte m.len then next else end) m deadline byte 0 t (t + 2400) false p'
          → Ends pulled (t + 2400) p' cs)
      → Ends pulled (t + 600) p (record { at = t + 600; falls = false } ∷ cs)
  play_ack t byte p a h d k =
      let (w, h1) = ack_release_step pulled m deadline t byte p h d in
      let (w2, h2) = ack_sample_step pulled m deadline t byte _ a h1 d in
      Ends-rises 450 (t + 1050) w (omega arith) (omega arith) h.drives h1.drives (
        Ends-quiet 1350 (t + 2400) w2 (omega arith) (omega arith) (h1.drives ∙ sym h2.drives)
          (k _ h2))

  -- The bits of the bytes from `byte` on, with n more behind it.
  abbrev pub bits_from : ℕ → ℕ → List Bool
  bits_from byte zero = below byte 8 ++ true ∷ true ∷ []
  bits_from byte (suc n) = below byte 8 ++ false ∷ true ∷ bits_from (byte + 1) n

  abbrev tail_from : ℕ → ℕ → List Bool
  tail_from byte zero = below byte 7 ++ true ∷ true ∷ []
  tail_from byte (suc n) = below byte 7 ++ false ∷ true ∷ bits_from (byte + 1) n

  bits_from_lem :
      (byte n : ℕ) → bits_from byte n ≡ data_one pulled m deadline byte 7 ∷ tail_from byte n
  bits_from_lem byte zero = refl
  bits_from_lem byte (suc n) = refl

  -- The end of the frame, after the last acknowledge bit.
  play_end :
      (t byte : ℕ) (p : Driver)
      → ltb byte m.len ≡ false
      → Here (if ltb byte m.len then next else end) m deadline byte 0 t (t + 2400) false p
      → t + 10000 < deadline
      → Ends pulled (t + 2400) p []
  play_end t byte p l h d =
      let h' : Here end m deadline byte 0 t (t + 2400) false p = ground (arith, h) in
      let (w, inactive, good, free) = end_step pulled m deadline t byte p h' d in
      (_, stop w h'.drives free, (inactive, good, free))

  play_bytes :
      (n t byte : ℕ) (one : Bool) (p : Driver)
      → pulled ≡ not (is_broadcast m)
      → byte + n + 1 ≡ m.len
      → one ≡ data_one pulled m deadline byte 7
      → Here data_release m deadline byte 7 t (t + low_time one) true p
      → p.tx.one ≡ one
      → t + 24000 * (n + 1) + 10000 < deadline
      → Ends pulled (t + low_time one) p (rest_of t one (tail_from byte n))
  unfolding wave
  play_bytes zero t byte one p a e o h o' d =
      play_data 7 t byte one true (true ∷ []) p o (ground arith) h o' (omega arith) λ p' t' e' h'.
        play_eom t' (byte + 1) true [] p' h' (omega arith) λ p2 h2.
          play_ack (t' + 2400) (byte + 1) p2 a h2 (omega arith)
            λ p3 h3. play_end (t' + 2400) (byte + 1) p3 (ground arith) h3 (omega arith)
  play_bytes (suc n) t byte one p a e o h o' d =
      play_data 7 t byte one false (true ∷ bits_from (byte + 1) n) p o (ground arith) h o'
        (omega arith)
        λ p' t' e' h'.
          play_eom t' (byte + 1) false (bits_from (byte + 1) n) p' h' (omega arith) λ p2 h2.
            play_ack (t' + 2400) (byte + 1) p2 a h2 (omega arith) λ p3 h3.
              let s = t' + 2400 in
              let one' = data_one pulled m deadline (byte + 1) 7 in
              let h4 : Here next m deadline (byte + 1) 0 s (s + 2400) false p3 =
                ground (arith, h3) in
              let (w, h5, o5) =
                next_step pulled m deadline s (byte + 1) one' p3 refl h4 (omega arith) in
              rw (bits_from_lem (byte + 1) n) (
                Ends-falls (low_time one') (s + 2400 + low_time one') w (low_time_pos one') refl
                  h4.drives h5.drives
                  (play_bytes n (s + 2400) (byte + 1) one' _ a (omega arith) refl h5 o5
                    (omega arith)))

  -- A transmission of n + 1 bytes that begins at t draws its frame.
  pub tx_begin-Ends :
      (n t : ℕ) (p : Driver)
      → pulled ≡ not (is_broadcast m)
      → n + 1 ≡ m.len
      → p.driven ≡ false
      → t + 24000 * (n + 1) + 20000 < deadline
      → Ends pulled t (tx_begin m deadline p) (
          record { at = t; falls = true }
          ∷ record { at = t + 3700; falls = false }
          ∷ wave (t + 4500) (bits_from 0 n))
  unfolding tx_begin wave
  tx_begin-Ends n t p a e d long =
      let p0 = tx_begin m deadline p in
      let h0 : Here start_low m deadline 0 7 0 0 false p0 = ground arith in
      let (w1, h1) = start_low_step pulled m deadline t p0 h0 (omega arith) in
      let p1 = (call pulled t p0).0 in
      let (w2, h2) = start_release_step pulled m deadline t p1 h1 (omega arith) in
      let p2 = (call pulled (t + 3700) p1).0 in
      let one = data_one pulled m deadline 0 7 in
      let (w3, h3, o3) =
        data_low_step pulled m deadline (t + 4500) t 0 7 one p2 refl h2 (omega arith) in
      rw (bits_from_lem 0 n) (
        Ends-falls 3700 (t + 3700) w1 (omega arith) refl h0.drives h1.drives (
          Ends-rises 800 (t + 4500) w2 (omega arith) (omega arith) h1.drives h2.drives (
            Ends-falls (low_time one) (t + 4500 + low_time one) w3 (low_time_pos one) refl h2.drives
              h3.drives
              (play_bytes n (t + 4500) 0 one _ a (omega arith) refl h3 o3 (omega arith)))))
