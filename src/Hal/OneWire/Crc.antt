-- ===== src/Hal/OneWire/Crc.antt =====
-- `blusys_one_wire_crc8` of components/blusys/src/hal/one_wire.c, the Dallas/Maxim CRC.
use blusys.Base.{
  ℕ, zero, suc, ◌/◌, ◌<◌, bit_and, bit_xor, List, [], ◌∷◌, arith, ◌==◌, if◌then◌else◌,
}
use blusys.Base.Bits.{bit_xor-lt}

-- The inner loop, with the rounds left; crc and byte are uint8_t.
unfoldable pub crc_bits : ℕ → ℕ → ℕ → ℕ
crc_bits zero crc byte = crc
crc_bits (suc b) crc byte =
    let mix = bit_and (bit_xor crc byte) 0x01 in
    crc_bits b (if mix == 0 then crc / 2 else bit_xor (crc / 2) 0x8C) (byte / 2)

unfoldable pub crc_from : ℕ → List ℕ → ℕ
crc_from crc [] = crc
crc_from crc (byte ∷ bytes) = crc_from (crc_bits 8 crc byte) bytes

-- The list is `data[0 .. len)`.
unfoldable pub crc8 : List ℕ → ℕ
crc8 bytes = crc_from 0 bytes

pub crc_bits-lt : (n crc byte : ℕ) → crc < 256 → crc_bits n crc byte < 256
unfolding crc_bits
crc_bits-lt zero crc byte h = h
crc_bits-lt (suc n) crc byte h = ground (
  arith,
  bit_xor-lt 8 (crc / 2) 0x8C,
  crc_bits-lt n (crc / 2) (byte / 2),
  crc_bits-lt n (bit_xor (crc / 2) 0x8C) (byte / 2),
)

crc_from-lt : (crc : ℕ) (bytes : List ℕ) → crc < 256 → crc_from crc bytes < 256
unfolding crc_from
crc_from-lt crc [] h = h
crc_from-lt crc (byte ∷ bytes) h =
    crc_from-lt (crc_bits 8 crc byte) bytes (crc_bits-lt 8 crc byte h)

-- The CRC is a byte.
pub crc8-lt : (bytes : List ℕ) → crc8 bytes < 256
unfolding crc8
crc8-lt bytes = crc_from-lt 0 bytes (omega arith)
