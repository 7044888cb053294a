-- ===== src/Validate/Laws.antt =====
-- What the checks of src/cec-validate.c accept.
use cec_controller.Common.{ℕ, ◌+◌, ◌*◌, ◌≤◌, ◌<◌, ◌≡◌, ◌≢◌, ◌↔◌, ◌⊎◌, true, Option, arith}
use cec_controller.CecId.{CecId, cec_id}
use cec_controller.Message.{Message, opcode}
use cec_controller.Validate.{cec_physical_address_valid, cec_message_valid, minimum, nibble}

-- An address of the CEC tree a.b.c.d: below a 0 there are only 0s. The root has no input to name,
-- and f.f.f.f means that no address is known.
pub record IsInput (a b c d : ℕ) : Type 0 where
  pub not_root : a ≢ 0
  pub ends_b : b ≡ 0 → (c ≡ 0) × (d ≡ 0)
  pub ends_c : c ≡ 0 → d ≡ 0
  pub not_unknown : a * 4096 + b * 256 + c * 16 + d ≢ 65535

-- The check accepts a 16-bit address exactly when its four nibbles name an input of the CEC tree.
pub cec_physical_address_valid-IsInput :
    (address : ℕ)
    → address < 65536
    → (cec_physical_address_valid address ≡ true)
      ↔ IsInput (nibble address 12) (nibble address 8) (nibble address 4) (nibble address 0)
unfolding cec_physical_address_valid
cec_physical_address_valid-IsInput address h = (λ v. ground arith, λ v. ground arith)

pub minimum_bounds : (id : Option CecId) → (2 ≤ minimum id) × (minimum id ≤ 6)
unfolding minimum
minimum_bounds id = ground arith

-- A message is accepted exactly when it is one header byte, or has from the opcode's minimum to 16 bytes.
pub cec_message_valid_iff :
    (m : Message)
    → (cec_message_valid m ≡ true)
      ↔ ((m.len ≡ 1) ⊎ ((minimum (cec_id (opcode m)) ≤ m.len) × (m.len ≤ 16)))
unfolding cec_message_valid
cec_message_valid_iff m =
    (λ v. ground arith, λ v. ground (arith, minimum_bounds (cec_id (opcode m))))
