-- ===== src/Host/Edid/Safety.antt =====
-- The search in an EDID reads inside its bytes, ends, and finds only valid addresses.
use cec_controller.Common.{
  ℕ, zero, suc, ◌+◌, ◌-◌, ◌*◌, ◌/◌, ◌%◌, ◌<◌, ◌≤◌, ◌≡◌, refl, Bool, true, false, not, ◌&&◌, ◌||◌,
  List, [], ◌∷◌, Option, none, some, leb, ltb, ◌==◌, if◌then◌else◌, length, arith, u8, u16, min,
  bit_or, Returns,
}
use cec_controller.Validate.{cec_physical_address_valid}
use cec_controller.Host.Edid.{
  block_size, read, checksum, same_bytes, vendor_block, or_next, first_of, data_blocks,
  extension_address, extensions, cecctl_edid_physical_address,
}

-- What is found is a valid address.
abbrev pub IsFound : Option ℕ → Type 0
IsFound none = Unit
IsFound (some address) = cec_physical_address_valid address ≡ true

abbrev Safe : Option (Option ℕ) → Type 0
Safe o = Returns IsFound o

read-Safe :
    (bytes : List ℕ) (i : ℕ) (k : ℕ → Option (Option ℕ))
    → i < length bytes
    → ((b : ℕ) → Safe (k b))
    → Safe (read bytes i k)
unfolding read
read-Safe [] i k h s = absurd (omega arith)
read-Safe (b ∷ bytes) zero k h s = s b
read-Safe (b ∷ bytes) (suc i) k h s = read-Safe bytes i k (omega arith) s

if-Safe :
    (b : Bool) (x y : Option (Option ℕ))
    → (b ≡ true → Safe x)
    → (b ≡ false → Safe y)
    → Safe (if b then x else y)
if-Safe true x y s t = s refl
if-Safe false x y s t = t refl

checksum-Safe :
    (edid : List ℕ) (n i sum : ℕ) (k : Bool → Option (Option ℕ))
    → i + n ≤ length edid
    → ((b : Bool) → Safe (k b))
    → Safe (checksum edid n i sum k)
unfolding checksum
checksum-Safe edid zero i sum k h s = s (sum == 0)
checksum-Safe edid (suc n) i sum k h s =
    read-Safe edid i _ (omega arith)
      (λ b. checksum-Safe edid n (i + 1) (u8 (sum + b)) k (omega arith) s)

same_bytes-Safe :
    (edid : List ℕ) (i : ℕ) (cs : List ℕ) (k : Bool → Option (Option ℕ))
    → i + length cs ≤ length edid
    → ((b : Bool) → Safe (k b))
    → Safe (same_bytes edid i cs k)
unfolding same_bytes
same_bytes-Safe edid i [] k h s = s true
same_bytes-Safe edid i (c ∷ cs) k h s = read-Safe edid i _ (omega arith) (λ b.
    if-Safe (b == c) _ _ (λ e. same_bytes-Safe edid (i + 1) cs k (omega arith) s) (λ e. s false))

vendor_block-Safe :
    (edid : List ℕ) (at : ℕ) (k : Option ℕ → Option (Option ℕ))
    → at + 5 ≤ length edid
    → ((o : Option ℕ) → IsFound o → Safe (k o))
    → Safe (vendor_block edid at k)
unfolding vendor_block
vendor_block-Safe edid at k h s = same_bytes-Safe edid at (3 ∷ 12 ∷ 0 ∷ []) _ (omega arith) by_match
  where
    valid : (value : ℕ) → IsFound (if cec_physical_address_valid value then some value else none)
    valid value = ground arith

    by_match :
        (hdmi : Bool)
        → Safe (
            if hdmi
            then read edid (at + 3) (λ high. read edid (at + 4) (λ low. k (
                if cec_physical_address_valid (u16 (bit_or (high * 256) low))
                then some (u16 (bit_or (high * 256) low))
                else none)))
            else k none)
    by_match true = read-Safe edid (at + 3) _ (omega arith) (λ high.
        read-Safe edid (at + 4) _ (omega arith)
          (λ low. s _ (valid (u16 (bit_or (high * 256) low)))))
    by_match false = s none tt

or_next-Safe :
    (found : Option ℕ) (next : Option (Option ℕ))
    → IsFound found
    → Safe next
    → Safe (or_next found next)
or_next-Safe none next f s = s
or_next-Safe (some value) next f s = f

data_blocks-Safe :
    (edid : List ℕ) (base data_end fuel offset : ℕ)
    → data_end ≤ 127
    → base + 128 ≤ length edid
    → offset ≤ data_end
    → data_end < fuel + offset
    → Safe (data_blocks edid base data_end fuel offset)
unfolding data_blocks
data_blocks-Safe edid base data_end zero offset top room on enough = absurd (omega arith)
data_blocks-Safe edid base data_end (suc fuel) offset top room on enough =
    if-Safe (ltb offset data_end) _ (some none)
      (λ inside. read-Safe edid (base + offset) _ (ground arith) (λ b. block b (λ n fits.
        data_blocks-Safe edid base data_end fuel (offset + 1 + n) top room (ground arith)
          (omega arith))))
      (λ outside. tt)
  where
    Later : Type 0
    Later =
        (n : ℕ)
        → ltb data_end (offset + 1 + n) ≡ false
        → Safe (data_blocks edid base data_end fuel (offset + 1 + n))

    block :
        (b : ℕ)
        → Later
        → Safe (
            if ltb data_end (offset + 1 + b % 32)
            then some none
            else if b / 32 == 3 && leb 5 (b % 32)
            then vendor_block edid
                (base + (offset + 1))
                (λ r. or_next r (data_blocks edid base data_end fuel (offset + 1 + b % 32)))
            else data_blocks edid base data_end fuel (offset + 1 + b % 32))
    block b later =
        if-Safe (ltb data_end (offset + 1 + b % 32)) (some none) _ (λ past. tt)
          (λ fits.
            if-Safe (b / 32 == 3 && leb 5 (b % 32)) _ _
              (λ vendor.
                vendor_block-Safe edid (base + (offset + 1)) _ (ground arith)
                  (λ r f. or_next-Safe r _ f (later (b % 32) fits)))
              (λ other. later (b % 32) fits))

extension_address-Safe :
    (edid : List ℕ) (base : ℕ) → base + 128 ≤ length edid → Safe (extension_address edid base)
unfolding extension_address
extension_address-Safe edid base room = read-Safe edid base _ (omega arith) (λ tag.
    if-Safe (not (tag == 2)) (some none) _ (λ a. tt)
      (λ a. checksum-Safe edid 128 base 0 _ (omega arith) (λ good.
        if-Safe (not good) (some none) _ (λ b. tt)
          (λ b.
            read-Safe edid (base + 2) _ (omega arith)
              (λ end_byte. ending (if end_byte == 0 then 127 else end_byte))))))
  where
    ending :
        (data_end : ℕ)
        → Safe (
            if ltb data_end 4 || ltb 127 data_end
            then some none
            else data_blocks edid base data_end 128 4)
    ending data_end =
        if-Safe (ltb data_end 4 || ltb 127 data_end) (some none) _ (λ a. tt)
          (λ a.
            data_blocks-Safe edid base data_end 128 4 (ground arith) room (ground arith)
              (ground arith))

extensions-Safe :
    (edid : List ℕ) (count base : ℕ)
    → base + 128 * count ≤ length edid
    → Safe (extensions edid count base)
unfolding extensions
extensions-Safe edid zero base room = tt
extensions-Safe edid (suc count) base room =
    first_of-Safe (extension_address edid base) (extensions edid count (base + block_size))
      (extension_address-Safe edid base (omega arith))
      (extensions-Safe edid count (base + block_size) (omega arith))
  where
    first_of-Safe : (o rest : Option (Option ℕ)) → Safe o → Safe rest → Safe (first_of o rest)
    first_of-Safe none rest s t = s
    first_of-Safe (some found) rest s t = or_next-Safe found rest s t

-- On any bytes at all, the search reads only bytes that are there, comes to an end, and what it finds is
-- a valid address.
pub cecctl_edid_physical_address-IsFound :
    (edid : List ℕ) → Returns IsFound (cecctl_edid_physical_address edid)
unfolding cecctl_edid_physical_address
cecctl_edid_physical_address-IsFound edid =
    if-Safe (ltb (length edid) block_size) (some none) _ (λ a. tt)
      (λ a.
        same_bytes-Safe edid 0 (0x00 ∷ 0xff ∷ 0xff ∷ 0xff ∷ 0xff ∷ 0xff ∷ 0xff ∷ 0x00 ∷ []) _
          (ground arith)
          (λ known.
            if-Safe (not known) (some none) _ (λ b. tt)
              (λ b. checksum-Safe edid 128 0 0 _ (ground arith) (λ good.
                if-Safe (not good) (some none) _ (λ c. tt)
                  (λ c. read-Safe edid 126 _ (ground arith) (λ count.
                    extensions-Safe edid (min count (length edid / block_size - 1)) block_size
                      (ground arith)))))))
