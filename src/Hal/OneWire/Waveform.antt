-- ===== src/Hal/OneWire/Waveform.antt =====
-- A byte written as slots and read back from them.
use native.Mathlib.Decide.{ℕ_discrete}
use blusys.Base.{ℕ, zero, suc, ◌<◌, ◌≡◌, refl, Bool, true, false, ◌&&◌, ◌==◌, arith}
use blusys.Hal.OneWire.Slots.{slots_byte, byte_slots, write_slot, slot_bit}

-- Whether a test holds of all numbers below a bound.
unfoldable all_below : ℕ → (ℕ → Bool) → Bool
all_below zero p = true
all_below (suc n) p = p n && all_below n p

all_below_lem : (n : ℕ) (p : ℕ → Bool) (k : ℕ) → all_below n p ≡ true → k < n → p k ≡ true
unfolding all_below
all_below_lem zero p k h hk = absurd (omega arith)
all_below_lem (suc n) p k h hk = elim (ℕ_discrete n k) [
  | yes e ↦ rw (← e) (ground (arith, h))
  | no ne ↦ all_below_lem n p k (ground (arith, h)) (omega arith)
]

-- The slot written for a bit is read back as the bit, if the wires give the slot back.
pub slot_bit-write_slot : (bit : Bool) → slot_bit (write_slot bit) ≡ bit
unfolding slot_bit write_slot
slot_bit-write_slot true = refl
slot_bit-write_slot false = refl

table : all_below 256 (λ b. slots_byte 8 0 8 (byte_slots 8 0 b) 0 == b) ≡ true
unfolding all_below slots_byte byte_slots slot_bit write_slot
table = refl

-- Reading the eight slots that a byte is written as gives the byte back.
pub slots_byte-byte_slots : (b : ℕ) → b < 256 → slots_byte 8 0 8 (byte_slots 8 0 b) 0 ≡ b
slots_byte-byte_slots b h =
    let e = all_below_lem 256 (λ b. slots_byte 8 0 8 (byte_slots 8 0 b) 0 == b) b table h in
    ground (arith, e)
