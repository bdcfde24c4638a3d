-- ===== src/Hal/OneWire/IdleRom.antt =====
-- The ROM commands and the search leave the bus idle.
use blusys.Base.{
  ℕ, zero, suc, ◌+◌, Bool, true, false, List, ◌&&◌, ◌==◌, take, get_or, if◌then◌else◌, arith,
}
use blusys.Hal.Error.{BlusysErr, err_not_found, err_io}
use blusys.Hal.OneWire.Crc.{crc8}
use blusys.Hal.OneWire.Defs.{Env, State, Returned, done, fail, M, ◌>>=◌, ◌>>◌, no_rom}
use blusys.Hal.OneWire.Bus.{reset, write_bit, read_bit, write_byte, write_bytes, read_bytes}
use blusys.Hal.OneWire.Rom.{
  search_reset, or_search_reset, search_choice, search_bits, finish_search, search_round,
  search_devices, read_rom, skip_rom, match_rom, search_direction, next_last_zero, set_rom_bit,
}
use blusys.Hal.OneWire.Idle.{
  IsIdle, Idles, bind-Idles, reset-Idles, write_bit-Idles, read_bit-Idles, write_byte-Idles,
  write_bytes-Idles, read_bytes-Idles,
}

pub search_reset-Idle : (s : State) → IsIdle s → IsIdle (search_reset s)
unfolding search_reset
search_reset-Idle s i = record { not_waiting = i.not_waiting; unlocked = i.unlocked }

or_search_reset-Idles : {A : Type 0} (m : M A) → Idles m → Idles (or_search_reset m)
unfolding or_search_reset
or_search_reset-Idles {A} m h s i = go (m s) (h s i)
  where
    go :
        (r : Returned A × State)
        → IsIdle r.1
        → IsIdle
            (elim r.0 as (λ x. Returned A × State) [
              | done a ↦ (done a, r.1)
              | fail e ↦ (fail e, search_reset r.1)
            ]).1
    go (done a, s') h' = h'
    go (fail e, s') h' = search_reset-Idle s' h'

-- A choice between stopping, at an error, and going on.
stop_or-Idle :
    {A : Type 0} (stop : Bool) (e : BlusysErr) (r : Returned A × State) (s : State)
    → IsIdle s
    → IsIdle r.1
    → IsIdle (if stop then (fail e, s) else r).1
stop_or-Idle true e r s i h = i
stop_or-Idle false e r s i h = h

module _ (env : Env) where
  search_choice-Idles :
      (rest : ℕ → List ℕ → M (ℕ × List ℕ)) (b lz : ℕ) (rom : List ℕ) (id cmp : Bool)
      → ((lz' : ℕ) (rom' : List ℕ) → Idles (rest lz' rom'))
      → Idles (search_choice env rest b lz rom id cmp)
  unfolding search_choice
  search_choice-Idles rest b lz rom id cmp h s i =
      let d = search_direction s.ow b id cmp in
      let lz' = next_last_zero lz b id cmp d in
      let rom' = if d then set_rom_bit rom b else rom in
      stop_or-Idle (id && cmp) err_not_found ((write_bit env d >> rest lz' rom') s) s i (
        bind-Idles (write_bit env d) (λ _. rest lz' rom') (write_bit-Idles env d) (λ _. h lz' rom')
          s i)

  search_bits-Idles : (n b lz : ℕ) (rom : List ℕ) → Idles (search_bits env n b lz rom)
  unfolding search_bits
  search_bits-Idles zero b lz rom s i = i
  search_bits-Idles (suc n) b lz rom s i =
      bind-Idles (read_bit env)
        (λ id. read_bit env >>= search_choice env (search_bits env n (b + 1)) b lz rom id)
        (read_bit-Idles env)
        (λ id.
          bind-Idles (read_bit env) (search_choice env (search_bits env n (b + 1)) b lz rom id)
            (read_bit-Idles env)
            (λ cmp.
              search_choice-Idles (search_bits env n (b + 1)) b lz rom id cmp
                (search_bits-Idles n (b + 1))))
        s i

  finish_search-Idles : (found : ℕ × List ℕ) → Idles (finish_search env found)
  unfolding finish_search
  finish_search-Idles (lz, rom) s i = ground (arith, i)

  search_round-Idles : Idles (search_round env)
  unfolding search_round
  search_round-Idles s i =
      bind-Idles (reset env)
        (λ _. write_byte env 0xF0 >> (search_bits env 64 1 0 no_rom >>= finish_search env))
        (reset-Idles env)
        (λ _.
          bind-Idles (write_byte env 0xF0)
            (λ _. search_bits env 64 1 0 no_rom >>= finish_search env) (write_byte-Idles env 0xF0)
            (λ _.
              bind-Idles (search_bits env 64 1 0 no_rom) (finish_search env)
                (search_bits-Idles 64 1 0 no_rom) finish_search-Idles))
        s i

  -- The search leaves the bus idle, on every path.
  pub search_devices-Idles : Idles (search_devices env)
  unfolding search_devices
  search_devices-Idles s i = ground (
    arith,
    search_reset-Idle s i,
    or_search_reset-Idles (search_round env) search_round-Idles s i,
  )

  -- Reading, skipping and matching a ROM leave the bus idle, on every path.
  pub read_rom-Idles : Idles (read_rom env)
  unfolding read_rom
  read_rom-Idles s i =
      bind-Idles (reset env) (λ _. write_byte env 0x33 >> (read_bytes env 8 >>= checked))
        (reset-Idles env)
        (λ _.
          bind-Idles (write_byte env 0x33) (λ _. read_bytes env 8 >>= checked)
            (write_byte-Idles env 0x33)
            (λ _. bind-Idles (read_bytes env 8) checked (read_bytes-Idles env 8) (λ bytes s i. i)))
        s i
    where
      checked : List ℕ → M (List ℕ)
      checked bytes s =
          (if crc8 (take 7 bytes) == get_or bytes 7 0 then done bytes else fail err_io, s)

  pub skip_rom-Idles : Idles (skip_rom env)
  unfolding skip_rom
  skip_rom-Idles s i =
      bind-Idles (reset env) (λ _. write_byte env 0xCC) (reset-Idles env)
        (λ _. write_byte-Idles env 0xCC) s i

  pub match_rom-Idles : (rom : List ℕ) → Idles (match_rom env rom)
  unfolding match_rom
  match_rom-Idles rom s i =
      bind-Idles (reset env) (λ _. write_byte env 0x55 >> write_bytes env rom) (reset-Idles env)
        (λ _.
          bind-Idles (write_byte env 0x55) (λ _. write_bytes env rom) (write_byte-Idles env 0x55)
            (λ _. write_bytes-Idles env rom))
        s i
