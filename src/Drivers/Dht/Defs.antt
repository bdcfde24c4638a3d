-- ===== src/Drivers/Dht/Defs.antt =====
-- The decoding of components/blusys/src/drivers/dht.c.
use blusys.Base.{
  ℕ, zero, suc, ◌+◌, ◌-◌, ◌/◌, ◌%◌, ◌^◌, bit_or, Bool, List, ◌==◌, ltb, if◌then◌else◌, get_or, set,
  replicate,
}
use blusys.Hal.Error.{BlusysErr, ok, err_io}

-- `rmt_symbol_word_t`
pub record Symbol : Type 0 where
  pub level0 : ℕ
  pub duration0 : ℕ
  pub level1 : ℕ
  pub duration1 : ℕ

-- What stands for a symbol out of range.
abbrev pub no_symbol : Symbol
no_symbol = record { level0 = 0; duration0 = 0; level1 = 0; duration1 = 0 }

-- The test of the loop at bit i.
abbrev pub is_one : List Symbol → ℕ → Bool
is_one symbols i = ltb 40 (get_or symbols (1 + i) no_symbol).duration1

-- `data[i / 8u] |= (uint8_t)(1u << (7u - (i % 8u)))`
unfoldable pub put_bit : ℕ → List ℕ → List ℕ
put_bit i bytes = set bytes (i / 8) (bit_or (get_or bytes (i / 8) 0) (2 ^ (7 - i % 8) % 2 ^ 8))

-- The loop from bit i on, for the rounds left.
unfoldable pub decode_bits : List Symbol → ℕ → ℕ → List ℕ → List ℕ
decode_bits symbols zero i bytes = bytes
decode_bits symbols (suc rounds) i bytes =
    decode_bits symbols rounds (i + 1) (if is_one symbols i then put_bit i bytes else bytes)

abbrev pub checksum : List ℕ → ℕ
checksum bytes = (get_or bytes 0 0 + get_or bytes 1 0 + get_or bytes 2 0 + get_or bytes 3 0) % 2 ^ 8

-- `dht_decode`: the result, and the bytes that it leaves in `data`.
unfoldable pub dht_decode : List Symbol → ℕ → List ℕ → BlusysErr × List ℕ
dht_decode symbols symbol_count bytes =
    let decoded = decode_bits symbols 40 0 (replicate 5 0) in
    if ltb symbol_count (1 + 40)
    then (err_io, bytes)
    else if checksum decoded == get_or decoded 4 0
    then (ok, decoded)
    else (err_io, decoded)
