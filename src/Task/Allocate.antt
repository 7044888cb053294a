-- ===== src/Task/Allocate.antt =====
-- The choice of a logical and of a physical address.
pub mod Laws
use cec_controller.Common.{
  ℕ, zero, suc, ◌≤◌, ◌<◌, ◌≡◌, refl, Bool, true, false, not, ◌&&◌, ◌||◌, List, [], ◌∷◌, Option,
  none, some, leb, ltb, ◌==◌, if◌then◌else◌, arith, ◌⊎◌, inl, inr,
}
use cec_controller.Message.{TxResult, is_no_ack, is_timeout}
use cec_controller.Config.{Config}
use cec_controller.Task.{Task, ping_message, say}

-- The table `laddress`, a row for each device type.
unfoldable pub laddress : ℕ → List ℕ
laddress zero = 0 ∷ 0 ∷ 0 ∷ 0 ∷ []
laddress (suc zero) = 1 ∷ 2 ∷ 9 ∷ 15 ∷ []
laddress (suc (suc zero)) = 15 ∷ 15 ∷ 15 ∷ 15 ∷ []
laddress (suc (suc (suc zero))) = 3 ∷ 6 ∷ 7 ∷ 15 ∷ []
laddress (suc (suc (suc (suc zero)))) = 4 ∷ 8 ∷ 11 ∷ 15 ∷ []
laddress (suc (suc (suc (suc (suc zero))))) = 5 ∷ 5 ∷ 5 ∷ 5 ∷ []
laddress _ = []

-- What the bus answers to the polls of an allocation, each with its number, from 0, and its address:
-- two polls of one address can have different answers.
abbrev pub Polls : Type 0
Polls = ℕ → ℕ → TxResult

-- The loop over a row, from the poll with the number `k`; `a` is the variable of that name.
unfoldable pub allocate_from : Polls → ℕ → List ℕ → ℕ → Task → ℕ × Task
allocate_from poll k [] a p = (a, p)
allocate_from poll k (next ∷ row) a p =
    let q = say (ping_message next) p in
    let rest = allocate_from poll (suc k) row next q in
    if next == 15
    then (next, p)
    else if is_no_ack (poll k next)
    then (next, q)
    else if is_timeout (poll k next)
    then (15, q)
    else rest

unfoldable pub allocate_logical_address : Polls → Task → ℕ × Task
unfolding allocate_from laddress
allocate_logical_address poll p =
    let wanted = p.config.logical_address in
    if not (wanted == 0) && not (wanted == 15)
    then (if is_no_ack (poll 0 wanted) then wanted else 15, say (ping_message wanted) p)
    else if leb 6 p.config.device_type
    then (15, p)
    else allocate_from poll 0 (laddress p.config.device_type) 15 p

-- The address of the configuration, or what the display data channel says.
unfoldable pub get_physical_address : ℕ → Config → ℕ
get_physical_address ddc config =
    if config.physical_address == 0 then ddc else config.physical_address
