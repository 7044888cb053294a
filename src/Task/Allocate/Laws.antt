-- ===== src/Task/Allocate/Laws.antt =====
-- Which addresses the allocation may take.
use cec_controller.Common.{
  ℕ, suc, ◌+◌, ◌==◌, ◌≡◌, ◌≢◌, refl, true, List, [], ◌∷◌, length, arith, ◌⊎◌, inl, inr, Bool-cases,
  ◌∙◌, not, ◌&&◌, leb, if◌then◌else◌,
}
use cec_controller.Message.{Message, is_no_ack, is_timeout}
use cec_controller.Task.{Task, ping_message, say}
use cec_controller.Task.Allocate.{laddress, Polls, allocate_from, allocate_logical_address}

-- The last poll that was sent on top of those before it was for the address, and nobody answered. The
-- number of the first poll is `k`.
abbrev pub IsFree : Polls → ℕ → Task → ℕ × Task → Type 0
IsFree poll k p (r, q) =
    (i : ℕ) × (is_no_ack (poll i r) ≡ true)
    × (length q.sent + k ≡ length p.sent + suc i)
    × (rest : List Message) × (q.sent ≡ ping_message r ∷ rest)

IsFree-later :
    (poll : Polls) (k next : ℕ) (p : Task) (o : ℕ × Task)
    → IsFree poll (suc k) (say (ping_message next) p) o
    → IsFree poll k p o
IsFree-later poll k next p (r, q) (i, free, number, rest, e) =
    (i, free, omega (arith, number), rest, e)

abbrev last_of : List ℕ → ℕ → ℕ
last_of [] a = a
last_of (x ∷ xs) a = last_of xs x

-- The loop ends with no address, with one that nobody answers, or at the end of the row.
abbrev RowResult : Polls → ℕ → List ℕ → ℕ → Task → ℕ × Task → Type 0
RowResult poll k row a p o = (o.0 ≡ 15) ⊎ IsFree poll k p o ⊎ (o.0 ≡ last_of row a)

allocate_from-RowResult :
    (poll : Polls) (k : ℕ) (row : List ℕ) (a : ℕ) (p : Task)
    → RowResult poll k row a p (allocate_from poll k row a p)
unfolding allocate_from
allocate_from-RowResult poll k [] a p = inr (inr refl)
allocate_from-RowResult poll k (next ∷ row) a p = elim (Bool-cases (next == 15)) [
  | inl none_left ↦ rw (allocate_from, none_left) (inl (ground arith))
  | inr some_left ↦ elim (Bool-cases (is_no_ack (poll k next))) [
    | inl free ↦
        rw (allocate_from, some_left, free) (inr (inl (k, free, omega arith, p.sent, refl)))
    | inr taken ↦ elim (Bool-cases (is_timeout (poll k next))) [
      | inl late ↦ rw (allocate_from, some_left, taken, late) (inl refl)
      | inr on ↦
          rw (allocate_from, some_left, taken, on)
            (elim (allocate_from-RowResult poll (suc k) row next (say (ping_message next) p)) [
              | inl e ↦ inl e
              | inr (inl free) ↦ inr (
                  inl (
                    IsFree-later poll k next p
                      (allocate_from poll (suc k) row next (say (ping_message next) p)) free))
              | inr (inr e) ↦ inr (inr e)
            ])
    ]
  ]
]

last_of-laddress :
    (type : ℕ)
    → type ≢ 0
    → (last_of (laddress type) 15 ≡ 15) ⊎ ((type ≡ 5) × (last_of (laddress type) 15 ≡ 5))
unfolding laddress
last_of-laddress type h = ground arith

module _ (poll : Polls) (p : Task) where
  Allocated : ℕ × Task → Type 0
  Allocated o = (o.0 ≡ 15) ⊎ IsFree poll 0 p o ⊎ ((p.config.device_type ≡ 5) × (o.0 ≡ 5))

  configured-Allocated :
      (wanted : ℕ)
      → Allocated (if is_no_ack (poll 0 wanted) then wanted else 15, say (ping_message wanted) p)
  unfolding Allocated
  configured-Allocated wanted = elim (Bool-cases (is_no_ack (poll 0 wanted))) [
    | inl free ↦ rw free (inr (inl (0, free, omega arith, p.sent, refl)))
    | inr taken ↦ rw taken (inl refl)
  ]

  row-Allocated :
      p.config.device_type ≢ 0
      → (o : ℕ × Task) → RowResult poll 0 (laddress p.config.device_type) 15 p o
      → Allocated o
  unfolding Allocated
  row-Allocated h o (inl e) = inl e
  row-Allocated h o (inr (inl free)) = inr (inl free)
  row-Allocated h o (inr (inr e)) = elim (last_of-laddress p.config.device_type h) [
    | inl none_left ↦ inl (e ∙ none_left)
    | inr (audio, five) ↦ inr (inr (audio, e ∙ five))
  ]

  allocate-Allocated : p.config.device_type ≢ 0 → Allocated (allocate_logical_address poll p)
  unfolding allocate_logical_address Allocated
  allocate-Allocated h =
      elim (Bool-cases
        (not (p.config.logical_address == 0) && not (p.config.logical_address == 15))) [
          | inl configured ↦
              rw (allocate_logical_address, configured)
                (configured-Allocated p.config.logical_address)
          | inr free ↦ elim (Bool-cases (leb 6 p.config.device_type)) [
            | inl unknown ↦ rw (allocate_logical_address, free, unknown) (inl refl)
            | inr known ↦
                rw (allocate_logical_address, free, known)
                  (row-Allocated h (allocate_from poll 0 (laddress p.config.device_type) 15 p)
                    (allocate_from-RowResult poll 0 (laddress p.config.device_type) 15 p))
          ]
        ]

-- For a device that is no television: an address taken is one that the last poll was sent to and that
-- nobody answered at then, or else it is 5 and the device is an audio system. A configured address is
-- taken, or none is.
pub allocate_logical_address_lem :
    (poll : Polls) (p : Task)
    → p.config.device_type ≢ 0
    → (((allocate_logical_address poll p).0 ≡ 15)
        ⊎ IsFree poll 0 p (allocate_logical_address poll p)
        ⊎ ((p.config.device_type ≡ 5) × ((allocate_logical_address poll p).0 ≡ 5)))
      × (p.config.logical_address ≢ 0
          → p.config.logical_address ≢ 15
          → ((allocate_logical_address poll p).0 ≡ 15)
            ⊎ ((allocate_logical_address poll p).0 ≡ p.config.logical_address))
unfolding allocate_logical_address Allocated
allocate_logical_address_lem poll p h =
    (allocate-Allocated poll p h, λ some_one no_other. ground arith)
