-- ===== src/Hal/OneWire/Slots.antt =====
-- The waveforms of components/blusys/src/hal/one_wire.c: how bits and bytes are written as RMT
-- symbols, and read back from captured ones.
use blusys.Base.{
  ℕ, zero, suc, ◌+◌, ◌/◌, ◌%◌, ◌^◌, Bool, true, false, ◌&&◌, List, [], ◌∷◌, leb, ltb, ◌==◌,
  if◌then◌else◌, bit_or, get_or,
}
use blusys.Hal.OneWire.Defs.{Symbol}

-- `s_ow_read_init_sym`
abbrev pub read_init_sym : Symbol
read_init_sym = record { level0 = 0; duration0 = 6; level1 = 1; duration1 = 64 }

-- The reset pulse of `blusys_one_wire_reset`.
abbrev pub reset_sym : Symbol
reset_sym = record { level0 = 0; duration0 = 480; level1 = 1; duration1 = 70 }

-- The write slot for a bit.
unfoldable pub write_slot : Bool → Symbol
write_slot bit = record {
  level0 = 0;
  duration0 = if bit then 6 else 60;
  level1 = 1;
  duration1 = if bit then 64 else 10;
}

-- The loop of `blusys_one_wire_write_byte`, LSB first, from bit i with the rounds left.
unfoldable pub byte_slots : ℕ → ℕ → ℕ → List Symbol
byte_slots zero i byte = []
byte_slots (suc n) i byte = write_slot (byte / 2 ^ i % 2 == 1) ∷ byte_slots n (i + 1) byte

-- The test of `blusys_one_wire_read_bit` on a captured symbol.
unfoldable pub slot_bit : Symbol → Bool
slot_bit s = leb s.duration0 15

abbrev pub no_symbol : Symbol
no_symbol = record { level0 = 0; duration0 = 0; level1 = 0; duration1 = 0 }

-- The loop of `blusys_one_wire_read_byte`, which stops at the number of captured symbols.
unfoldable pub slots_byte : ℕ → ℕ → ℕ → List Symbol → ℕ → ℕ
slots_byte zero i count buf result = result
slots_byte (suc n) i count buf result =
    let rest =
      slots_byte n (i + 1) count buf
        (bit_or result (if slot_bit (get_or buf i no_symbol) then 2 ^ i else 0)) in
    if ltb i count then rest else result

abbrev pub is_presence : ℕ → ℕ → Bool
is_presence level duration = (level == 0) && (leb 60 duration && leb duration 300)

-- The loop of `blusys_one_wire_reset` over the captured symbols.
unfoldable pub detect_presence : List Symbol → Bool
detect_presence [] = false
detect_presence (s ∷ rest) =
    let later = detect_presence rest in
    if is_presence s.level0 s.duration0
    then true
    else if is_presence s.level1 s.duration1
    then true
    else later
