-- ===== src/Hal/OneWire/Rom.antt =====
-- The ROM commands and the device search of components/blusys/src/hal/one_wire.c, and the
-- operations as a client calls them, with a handle that may be NULL.
use blusys.Base.{
  ℕ, zero, suc, ◌+◌, ◌-◌, ◌/◌, ◌%◌, ◌^◌, Bool, true, false, not, ◌&&◌, Option, none, some, List,
  ◌==◌, ltb, if◌then◌else◌, get_or, set, take, bit_or, length,
}
use blusys.Base.Bits.{xor}
use blusys.Hal.Error.{err_not_found, err_io, err_invalid_arg}
use blusys.Hal.OneWire.Crc.{crc8}
use blusys.Hal.OneWire.Defs.{
  OneWire, Env, State, Returned, done, fail, M, ◌>>=◌, ◌>>◌, return, no_rom,
}
use blusys.Hal.OneWire.Bus.{
  reset, write_bit, read_bit, write_byte, read_byte, write_bytes, read_bytes,
}

-- `blusys_one_wire_search_reset`
unfoldable pub search_reset : State → State
search_reset s = record s {
  ow = record (s.ow) {
    search_rom = no_rom;
    search_last_discrepancy = 0;
    search_last_device_flag = false;
  };
}

-- The error paths of the search reset its state.
unfoldable pub or_search_reset : {A : Type 0} → M A → M A
or_search_reset m s =
    let (r, s') = m s in elim r [ done a ↦ (done a, s') | fail e ↦ (fail e, search_reset s') ]

-- Bit `id_bit_number`, counted from 1, of a ROM, and setting it.
abbrev pub rom_bit : List ℕ → ℕ → Bool
rom_bit rom id_bit_number =
    get_or rom ((id_bit_number - 1) / 8) 0 / 2 ^ ((id_bit_number - 1) % 8) % 2 == 1

abbrev pub set_rom_bit : List ℕ → ℕ → List ℕ
set_rom_bit rom id_bit_number =
    set rom ((id_bit_number - 1) / 8)
      (bit_or (get_or rom ((id_bit_number - 1) / 8) 0) (2 ^ ((id_bit_number - 1) % 8)))

-- The choice at one bit. Where the two bits read differ the devices agree; else the previous path
-- decides.
unfoldable pub search_direction : OneWire → ℕ → Bool → Bool → Bool
search_direction ow id_bit_number id_bit cmp_id_bit =
    if xor id_bit cmp_id_bit
    then id_bit
    else if ltb id_bit_number ow.search_last_discrepancy
    then rom_bit ow.search_rom id_bit_number
    else id_bit_number == ow.search_last_discrepancy

unfoldable pub next_last_zero : ℕ → ℕ → Bool → Bool → Bool → ℕ
next_last_zero last_zero id_bit_number id_bit cmp_id_bit direction =
    if not (xor id_bit cmp_id_bit) && not direction then id_bit_number else last_zero

module _ (env : Env) where
  -- What a round does once both bits are read; `rest` are the rounds that follow.
  unfoldable pub search_choice :
      (ℕ → List ℕ → M (ℕ × List ℕ)) → ℕ → ℕ → List ℕ → Bool → Bool → M (ℕ × List ℕ)
  search_choice rest id_bit_number last_zero new_rom id_bit cmp_id_bit s =
      let direction = search_direction s.ow id_bit_number id_bit cmp_id_bit in
      let last_zero' = next_last_zero last_zero id_bit_number id_bit cmp_id_bit direction in
      let new_rom' = if direction then set_rom_bit new_rom id_bit_number else new_rom in
      if id_bit && cmp_id_bit
      then (fail err_not_found, s)
      else (write_bit env direction >> rest last_zero' new_rom') s

  -- The loop over the bits, from `id_bit_number`, with the rounds left.
  unfoldable pub search_bits : ℕ → ℕ → ℕ → List ℕ → M (ℕ × List ℕ)
  search_bits zero id_bit_number last_zero new_rom = return (last_zero, new_rom)
  search_bits (suc n) id_bit_number last_zero new_rom = do
    id_bit ← read_bit env
    cmp_id_bit ← read_bit env
    search_choice (search_bits n (id_bit_number + 1)) id_bit_number last_zero new_rom id_bit
        cmp_id_bit

  -- A complete round: the check of the CRC, the new search state, and the result.
  unfoldable pub finish_search : ℕ × List ℕ → M (List ℕ × Bool)
  finish_search (last_zero, new_rom) s =
      if crc8 (take 7 new_rom) == get_or new_rom 7 0
      then (
        done (new_rom, last_zero == 0),
        record s {
          ow = record (s.ow) {
            search_rom = new_rom;
            search_last_discrepancy = last_zero;
            search_last_device_flag = last_zero == 0;
          };
        },
      )
      else (fail err_io, s)

  unfoldable pub search_round : M (List ℕ × Bool)
  search_round = do
    reset env
    write_byte env 0xF0
    found ← search_bits 64 1 0 no_rom
    finish_search found

  -- `blusys_one_wire_search`: the ROM found, and whether it is the last.
  unfoldable pub search_devices : M (List ℕ × Bool)
  search_devices s =
      let next = or_search_reset search_round s in
      if s.ow.search_last_device_flag then (fail err_not_found, search_reset s) else next

  unfoldable pub read_rom : M (List ℕ)
  read_rom = do
    reset env
    write_byte env 0x33
    bytes ← read_bytes env 8
    λ s. (if crc8 (take 7 bytes) == get_or bytes 7 0 then done bytes else fail err_io, s)

  unfoldable pub skip_rom : M (Unit {0})
  skip_rom = do reset env; write_byte env 0xCC

  unfoldable pub match_rom : List ℕ → M (Unit {0})
  match_rom rom = do reset env; write_byte env 0x55; write_bytes env rom

-- What a client gets of a call: an error, or BLUSYS_OK with a value. A handle that is NULL, or an
-- output pointer that is, is none.
unfoldable pub on_handle : {A : Type 0} → M A → Option State → Bool → Returned A × Option State
on_handle m none has_out = (fail err_invalid_arg, none)
on_handle m (some s) has_out =
    let (r, s') = m s in if has_out then (r, some s') else (fail err_invalid_arg, some s)

module _ (env : Env) where
  unfoldable pub one_wire_reset : Option State → Returned (Unit {0}) × Option State
  one_wire_reset h = on_handle (reset env) h true

  unfoldable pub one_wire_write_bit : Bool → Option State → Returned (Unit {0}) × Option State
  one_wire_write_bit bit h = on_handle (write_bit env bit) h true

  unfoldable pub one_wire_read_bit : Option State → Bool → Returned Bool × Option State
  one_wire_read_bit = on_handle (read_bit env)

  unfoldable pub one_wire_write_byte : ℕ → Option State → Returned (Unit {0}) × Option State
  one_wire_write_byte byte h = on_handle (write_byte env byte) h true

  unfoldable pub one_wire_read_byte : Option State → Bool → Returned ℕ × Option State
  one_wire_read_byte = on_handle (read_byte env)

  -- `bytes` is none for NULL; its length is `len`.
  unfoldable pub one_wire_write :
      Option (List ℕ) → Option State → Returned (Unit {0}) × Option State
  one_wire_write none h = (fail err_invalid_arg, h)
  one_wire_write (some bytes) h = on_handle (write_bytes env bytes) h (not (length bytes == 0))

  unfoldable pub one_wire_read : ℕ → Option State → Bool → Returned (List ℕ) × Option State
  one_wire_read len h has_out = on_handle (read_bytes env len) h (has_out && not (len == 0))

  unfoldable pub one_wire_read_rom : Option State → Bool → Returned (List ℕ) × Option State
  one_wire_read_rom = on_handle (read_rom env)

  unfoldable pub one_wire_skip_rom : Option State → Returned (Unit {0}) × Option State
  one_wire_skip_rom h = on_handle (skip_rom env) h true

  -- `rom` is none for NULL.
  unfoldable pub one_wire_match_rom :
      Option (List ℕ) → Option State → Returned (Unit {0}) × Option State
  one_wire_match_rom none h = (fail err_invalid_arg, h)
  one_wire_match_rom (some rom) h = on_handle (match_rom env rom) h true

  unfoldable pub one_wire_search : Option State → Bool → Returned (List ℕ × Bool) × Option State
  one_wire_search = on_handle (search_devices env)

unfoldable pub one_wire_search_reset : Option State → Returned (Unit {0}) × Option State
one_wire_search_reset h = on_handle (λ s. (done tt, search_reset s)) h true
