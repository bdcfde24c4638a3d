-- ===== src/Hal/GpioExpander/Sent.antt =====
-- The levels that a write puts on the pins of an expander, read off the transaction that is sent as
-- the data sheets of the chips say; the driver is components/blusys/src/hal/gpio_expander.c.
use blusys.Base.{
  Option, none, some, if_true, ◌*◌, ◌%◌, ◌∙◌, ℕ, suc, ◌-◌, ◌/◌, ◌^◌, ◌≤◌, ◌<◌, bit_and, bit_or, ◌≡◌,
  refl, ap, Bool, true, false, ◌&&◌, ◌||◌, List, [], ◌∷◌, arith, ◌==◌, ltb, ltb→lt, if◌then◌else◌,
  Bool-cases, inl, inr, if_both, tests,
}
use blusys.Base.Bits.{test_bit, test_bit-bit_or}
use blusys.Hal.Error.{ok}
use blusys.Hal.GpioExpander.Defs.{
  Call, Expander, Ic, pcf8574, pcf8574a, mcp23017, mcp23s17, other_ic, Env, State, Trace, lock_give,
  lock_take, i2c_write, spi_transfer, log_call, pin_bit, clear_bit, is_pcf, set_latch, low_byte,
  high_byte,
}
use blusys.Hal.GpioExpander.Bits.{test_bit-set, test_bit-clear, test_bit-low, set-lt, clear-lt}
use blusys.Hal.GpioExpander.Bus.{
  opcode_write, i2c_master_write, mcp23s17_write2, pcf857x_write_port, mcp23017_write_olat,
}
use blusys.Hal.GpioExpander.Pins.{with_lock, write_latch, write_pin_locked, write_pin}
use blusys.Hal.GpioExpander.Registers.{pins_of, Holds, pins_le}

-- The level of pin i in the byte that a PCF8574 takes.
unfoldable pub port_bit : List ℕ → ℕ → Option Bool
port_bit (port ∷ []) i = some (test_bit port i)
port_bit _ i = none

-- The level of pin i in what a chip with registers takes: two bytes from the register OLATA on, whose number is
-- 0x14.
unfoldable pub olat_bit : List ℕ → ℕ → Option Bool
olat_bit (reg ∷ low ∷ high ∷ []) i =
    if reg == 0x14 then some (if ltb i 8 then test_bit low i else test_bit high (i - 8)) else none
olat_bit _ i = none

-- The level at which a call puts pin i of the chip of a handle, none if it is no write to the pins of that chip.
-- The opcode is 0100 A2 A1 A0 and a zero for a write.
unfoldable pub call_bit : Ic → Expander → Call → ℕ → Option Bool
call_bit pcf8574 e (i2c_write address bytes timeout_ms err) i =
    if address == e.i2c_address then port_bit bytes i else none
call_bit pcf8574a e (i2c_write address bytes timeout_ms err) i =
    if address == e.i2c_address then port_bit bytes i else none
call_bit mcp23017 e (i2c_write address bytes timeout_ms err) i =
    if address == e.i2c_address then olat_bit bytes i else none
call_bit mcp23s17 e (spi_transfer (opcode ∷ bytes) err) i =
    if opcode == bit_or 0x40 (e.hw_addr * 2 % 2 ^ 8) then olat_bit bytes i else none
call_bit _ e c i = none

-- The level at which the last call puts it, but for giving the lock.
unfoldable pub sent_bit : Ic → Expander → Trace → ℕ → Option Bool
sent_bit ic e [] i = none
sent_bit ic e (lock_give ∷ t) i = sent_bit ic e t i
sent_bit ic e (c ∷ t) i = call_bit ic e c i

reaches : (n : ℕ) (x : Option Bool) → (if n == n then x else none) ≡ x
reaches n x = if_true (λ y. y ≡ x) (n == n) _ _ (ground arith) refl

upper_bit :
    (x k : ℕ)
    → x < 65536
    → test_bit (high_byte x) k ≡ test_bit x (suc (suc (suc (suc (suc (suc (suc (suc k))))))))
unfolding test_bit
upper_bit x k h =
    let e : high_byte x ≡ x / 2 / 2 / 2 / 2 / 2 / 2 / 2 / 2 = omega arith in
    ap (λ y. test_bit y k) e

abbrev some_level : Bool → Option Bool
some_level b = some b

two_bytes :
    (x i : ℕ)
    → x < 65536
    → i < 16
    → olat_bit (0x14 ∷ low_byte x ∷ high_byte x ∷ []) i ≡ some (test_bit x i)
unfolding olat_bit
two_bytes x i h hi = elim (Bool-cases (ltb i 8)) [
  | inl e ↦ rw e (ap some_level (test_bit-low x i (ltb→lt i 8 e)))
  | inr e ↦
      let le : 8 ≤ i = ground (arith, e) in
      rw e (ap some_level (upper_bit x (i - 8) h ∙ ap (test_bit x) (omega (arith, le))))
]

forced_bit :
    (l d i : ℕ)
    → i < 8
    → test_bit (low_byte (bit_or l (bit_and d 0xFF))) i ≡ (test_bit l i || test_bit d i)
forced_bit l d i h =
    test_bit-low (bit_or l (bit_and d 0xFF)) i h
    ∙ test_bit-bit_or i l (bit_and d 0xFF)
    ∙ ap (λ b. test_bit l i || b) (test_bit-low d i h)

or_false : (b : Bool) → b ≡ (b || false)
or_false true = refl
or_false false = refl

module _ (env : Env) where
  write_latch-sent :
      (ic : Ic) (l i : ℕ) (s : State)
      → l < 2 ^ pins_of ic
      → i < pins_of ic
      → sent_bit ic s.expander ((write_latch env ic (set_latch l s)).1.trace) i
        ≡ some (test_bit l i || (is_pcf ic && test_bit (s.expander.dir_mask) i))
  unfolding write_latch sent_bit call_bit port_bit i2c_master_write pcf857x_write_port
      mcp23017_write_olat mcp23s17_write2 opcode_write is_pcf pins_of
  write_latch-sent pcf8574 l i s hl hi =
      reaches s.expander.i2c_address _ ∙ ap some_level (forced_bit l (s.expander.dir_mask) i hi)
  write_latch-sent pcf8574a l i s hl hi =
      reaches s.expander.i2c_address _ ∙ ap some_level (forced_bit l (s.expander.dir_mask) i hi)
  write_latch-sent mcp23017 l i s hl hi =
      reaches s.expander.i2c_address _
      ∙ two_bytes l i hl hi
      ∙ ap some_level (or_false (test_bit l i))
  write_latch-sent mcp23s17 l i s hl hi =
      reaches (bit_or 0x40 (s.expander.hw_addr * 2 % 2 ^ 8)) _
      ∙ two_bytes l i hl hi
      ∙ ap some_level (or_false (test_bit l i))
  write_latch-sent other_ic l i s hl hi = absurd (omega arith)

  new_latch_bit :
      (pin i l : ℕ) (level : Bool)
      → pin < 16
      → i < 16
      → test_bit (if level then bit_or l (pin_bit pin) else clear_bit l (pin_bit pin)) i
        ≡ (if i == pin then level else test_bit l i)
  new_latch_bit pin i l true hp hi = test_bit-set l pin i hp ∙ ground arith
  new_latch_bit pin i l false hp hi = test_bit-clear l pin i hp hi ∙ ground arith

  -- If the handle meets the invariant and the lock is obtained, writing one of the chip's pins ends in a
  -- write to the output latch of that chip, by the handle's address and the chip's register, that puts the pin
  -- at the level and every other pin at its cached level, except that on a PCF8574 each input pin is put
  -- high.
  pub write_pin-sent :
      (ic : Ic) (pin i : ℕ) (level : Bool) (s : State)
      → Holds ic s.expander
      → pin < pins_of ic
      → i < pins_of ic
      → env.take s.trace ≡ ok
      → sent_bit ic s.expander ((write_pin env pin level s).1.trace) i
        ≡ some (
            (if i == pin then level else test_bit (s.expander.output_latch) i)
            || (is_pcf ic && test_bit (s.expander.dir_mask) i))
  unfolding write_pin with_lock write_pin_locked sent_bit
  write_pin-sent ic pin i level s h hp hi e =
      let l = s.expander.output_latch in
      let l' = if level then bit_or l (pin_bit pin) else clear_bit l (pin_bit pin) in
      let wide : pins_of ic ≤ 16 = pins_le ic in
      let in_range : ltb pin (s.expander.pin_count) ≡ true = omega (tests, hp, h.pins) in
      let fits : l' < 2 ^ pins_of ic =
        if_both (λ l. l < 2 ^ pins_of ic) level
          (set-lt (pins_of ic) l pin h.registers.latch_fits hp wide)
          (clear-lt (pins_of ic) l (pin_bit pin) h.registers.latch_fits) in
      let held = log_call (lock_take (s.expander.timeout_ms) ok) s in
      rw (in_range, e, ← h.ic_kept)
        (write_latch-sent (s.expander.ic) l' i held (rw (h.ic_kept) fits) (rw (h.ic_kept) hi)
          ∙ ap (λ b. some (b || (is_pcf (s.expander.ic) && test_bit (s.expander.dir_mask) i)))
              (new_latch_bit pin i l level (omega arith) (omega arith)))
