-- ===== src/Hal/OneWire/SearchState.antt =====
-- What the device search of components/blusys/src/hal/one_wire.c leaves for the next search, for
-- each result.
use blusys.Base.{ℕ, ◌≡◌, refl, Bool, true, false, List, ◌==◌, take, get_or, arith, if◌then◌else◌}
use blusys.Hal.Error.{err_io, err_not_found}
use blusys.Hal.OneWire.Crc.{crc8}
use blusys.Hal.OneWire.Defs.{Env, State, OneWire, Returned, done, fail, M, ◌>>=◌, ◌>>◌, no_rom}
use blusys.Hal.OneWire.Bus.{reset, write_byte}
use blusys.Hal.OneWire.Rom.{
  search_reset, or_search_reset, search_bits, finish_search, search_round, search_devices,
}

-- The state of a handle on which the next search is the first.
pub record IsStart (ow : OneWire) : Type 0 where
  pub rom_cleared : ow.search_rom ≡ no_rom
  pub no_discrepancy : ow.search_last_discrepancy ≡ 0
  pub not_last : ow.search_last_device_flag ≡ false

-- A device was found: its ROM ends with the CRC of its first seven bytes and is remembered, and the
-- device is the last one just if no discrepancy is left.
pub record IsFound (rom : List ℕ) (last : Bool) (ow : OneWire) : Type 0 where
  pub crc_matches : crc8 (take 7 rom) ≡ get_or rom 7 0
  pub remembered : ow.search_rom ≡ rom
  pub last_flag : ow.search_last_device_flag ≡ last
  pub last_discrepancy : last ≡ (ow.search_last_discrepancy == 0)

unfoldable pub Outcome : Returned (List ℕ × Bool) × State → Type 0
Outcome (done (rom, last), s) = IsFound rom last (s.ow)
Outcome (fail e, s) = IsStart (s.ow)

-- The same, less what a failure leaves.
unfoldable FoundIfDone : Returned (List ℕ × Bool) × State → Type 0
FoundIfDone (done (rom, last), s) = IsFound rom last (s.ow)
FoundIfDone (fail e, s) = Unit {0}

search_reset-IsStart : (s : State) → IsStart ((search_reset s).ow)
unfolding search_reset
search_reset-IsStart s = record { rom_cleared = refl; no_discrepancy = refl; not_last = refl }

or_search_reset-Outcome :
    (m : M (List ℕ × Bool)) (s : State) → FoundIfDone (m s) → Outcome (or_search_reset m s)
unfolding or_search_reset FoundIfDone Outcome
or_search_reset-Outcome m s h = go (m s) h
  where
    go :
        (r : Returned (List ℕ × Bool) × State)
        → FoundIfDone r
        → Outcome (elim r.0 as (λ x. Returned (List ℕ × Bool) × State) [
          | done a ↦ (done a, r.1)
          | fail e ↦ (fail e, search_reset r.1)
        ])
    go (done (rom, last), s') h' = h'
    go (fail e, s') h' = search_reset-IsStart s'

bind-FoundIfDone :
    {A : Type 0} (m : M A) (f : A → M (List ℕ × Bool))
    → ((a : A) (s : State) → FoundIfDone (f a s))
    → (s : State) → FoundIfDone ((m >>= f) s)
unfolding FoundIfDone
bind-FoundIfDone {A} m f h s = go (m s)
  where
    go :
        (r : Returned A × State)
        → FoundIfDone (elim r.0 as (λ x. Returned (List ℕ × Bool) × State) [
          | done a ↦ f a r.1
          | fail e ↦ (fail e, r.1)
        ])
    go (done a, s') = h a s'
    go (fail e, s') = tt

guard-FoundIfDone :
    (b : Bool) (rom : List ℕ) (last : Bool) (s s' : State)
    → (b ≡ true → IsFound rom last (s'.ow))
    → FoundIfDone (if b then (done (rom, last), s') else (fail err_io, s))
unfolding FoundIfDone
guard-FoundIfDone true rom last s s' h = h refl
guard-FoundIfDone false rom last s s' h = tt

guard-Outcome :
    (b : Bool) (r : Returned (List ℕ × Bool) × State) (s : State)
    → Outcome r
    → Outcome (if b then (fail err_not_found, search_reset s) else r)
unfolding Outcome
guard-Outcome true r s h = search_reset-IsStart s
guard-Outcome false r s h = h

module _ (env : Env) where
  finish_search-FoundIfDone :
      (found : ℕ × List ℕ) (s : State) → FoundIfDone (finish_search env found s)
  unfolding finish_search
  finish_search-FoundIfDone (last_zero, new_rom) s =
      guard-FoundIfDone (crc8 (take 7 new_rom) == get_or new_rom 7 0) new_rom (last_zero == 0) s _
        (λ h. record {
          crc_matches = ground (arith, h);
          remembered = refl;
          last_flag = refl;
          last_discrepancy = refl;
        })

  search_round-FoundIfDone : (s : State) → FoundIfDone (search_round env s)
  unfolding search_round
  search_round-FoundIfDone =
      bind-FoundIfDone (reset env)
        (λ _. write_byte env 0xF0 >> (search_bits env 64 1 0 no_rom >>= finish_search env))
        (λ _.
          bind-FoundIfDone (write_byte env 0xF0)
            (λ _. search_bits env 64 1 0 no_rom >>= finish_search env)
            (λ _.
              bind-FoundIfDone (search_bits env 64 1 0 no_rom) (finish_search env)
                finish_search-FoundIfDone))

  -- A search that succeeds remembers the ROM it returns, whose last byte is the CRC of the others,
  -- and says it is the last device just if no discrepancy is left; a search that fails, for whatever
  -- reason, leaves the handle as before the first search.
  pub search_devices-Outcome : (s : State) → Outcome (search_devices env s)
  unfolding search_devices
  search_devices-Outcome s =
      guard-Outcome (s.ow.search_last_device_flag) (or_search_reset (search_round env) s) s
        (or_search_reset-Outcome (search_round env) s (search_round-FoundIfDone s))
