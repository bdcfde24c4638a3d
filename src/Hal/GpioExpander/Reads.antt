-- ===== src/Hal/GpioExpander/Reads.antt =====
-- Reading a pin of an expander is reading its port, in state, calls and result.
use blusys.Base.{
  ◌∙◌, ℕ, ◌<◌, ◌≡◌, [], ◌∷◌, ◌&&◌, ◌*◌, ◌%◌, ◌^◌, bit_or, arith, Bool-cases, inl, inr, refl, ap,
  sym, Bool, true, false, ◌==◌, ltb, if◌then◌else◌, tests,
}
use blusys.Base.Bits.{test_bit, test_bit_lem}
use blusys.Hal.Error.{BlusysErr, ok}
use blusys.Hal.Result.{Returned, done, fail}
use blusys.Hal.GpioExpander.Defs.{
  Trace, Call, Expander, i2c_read, i2c_write_read, spi_transfer, Ic, pcf8574, pcf8574a, mcp23017,
  mcp23s17, other_ic, Env, State, lock_take, lock_give, log_call,
}
use blusys.Base.Int.{ℤ}
use blusys.Hal.GpioExpander.Bus.{
  opcode_read, pcf857x_read_port, mcp23017_read_gpio, i2c_master_write_read, mcp23s17_read2,
}
use blusys.Hal.GpioExpander.Pins.{
  with_lock, read_pin, read_port, read_pin_locked, read_port_locked, pin_level,
}

locked_level :
    (b : Bool) (pin : ℕ) (r : Returned ℕ × State) (e : BlusysErr) (s1 : State)
    → (if b then ((pin_level pin r).0, log_call lock_give (pin_level pin r).1) else (fail e, s1))
      ≡ pin_level pin (if b then (r.0, log_call lock_give r.1) else (fail e, s1))
unfolding pin_level
locked_level true pin (done v, s) e s1 = refl
locked_level true pin (fail x, s) e s1 = refl
locked_level false pin r e s1 = refl

pub pin_level-state : (pin : ℕ) (r : Returned ℕ × State) → (pin_level pin r).1 ≡ r.1
unfolding pin_level
pin_level-state pin (done v, s) = refl
pin_level-state pin (fail e, s) = refl

-- The level of a pin in a port, whose bit i is that of pin i.
unfoldable pub port_level : ℕ → Returned ℕ → Returned Bool
port_level pin (done port) = done (test_bit port pin)
port_level pin (fail e) = fail e

-- The code's shift and mask give that level.
pin_level-eq : (pin : ℕ) (r : Returned ℕ × State) → pin_level pin r ≡ (port_level pin r.0, r.1)
unfolding pin_level port_level
pin_level-eq pin (done port, s) = ap (λ b. (done b, s)) (sym (test_bit_lem pin port))
pin_level-eq pin (fail e, s) = refl

-- Whether a call reads the port of the chip of a handle: at its address, and for a chip with registers from GPIOA
-- on, whose number is 0x12. The opcode is 0100 A2 A1 A0 and a one for a read.
unfoldable pub asks_port : Ic → Expander → Call → Bool
asks_port pcf8574 e (i2c_read address timeout_ms err) = address == e.i2c_address
asks_port pcf8574a e (i2c_read address timeout_ms err) = address == e.i2c_address
asks_port mcp23017 e (i2c_write_read address reg timeout_ms err) =
    (address == e.i2c_address) && (reg == 0x12)
asks_port mcp23s17 e (spi_transfer (opcode ∷ reg ∷ a ∷ b ∷ []) err) =
    (opcode == bit_or (bit_or 0x40 (e.hw_addr * 2 % 2 ^ 8)) 0x01) && (reg == 0x12)
asks_port _ e c = false

-- Whether the last call does, but for giving the lock.
unfoldable pub asked : Ic → Expander → Trace → Bool
asked ic e [] = false
asked ic e (lock_give ∷ t) = asked ic e t
asked ic e (c ∷ t) = asks_port ic e c

unfoldable pub is_chip : Ic → Bool
is_chip other_ic = false
is_chip _ = true

lock_take-asks :
    (ic : Ic) (e : Expander) (t : ℤ) (err : BlusysErr) → asks_port ic e (lock_take t err) ≡ false
unfolding asks_port
lock_take-asks pcf8574 e t err = refl
lock_take-asks pcf8574a e t err = refl
lock_take-asks mcp23017 e t err = refl
lock_take-asks mcp23s17 e t err = refl
lock_take-asks other_ic e t err = refl

module _ (env : Env) where
  read_port_locked-asked :
      (ic : Ic) (t : ℤ) (err : BlusysErr) (s : State)
      → asked ic s.expander ((read_port_locked env ic (log_call (lock_take t err) s)).1.trace)
        ≡ is_chip ic
  unfolding read_port_locked pcf857x_read_port mcp23017_read_gpio i2c_master_write_read
      mcp23s17_read2 opcode_read asked asks_port is_chip
  read_port_locked-asked pcf8574 t err s = ground arith
  read_port_locked-asked pcf8574a t err s = ground arith
  read_port_locked-asked mcp23017 t err s = ground arith
  read_port_locked-asked mcp23s17 t err s = ground arith
  read_port_locked-asked other_ic t err s = refl

  -- Reading the port asks the chip for it if the lock is obtained.
  read_port-asked :
      (s : State)
      → asked s.expander.ic s.expander ((read_port env s).1.trace)
        ≡ ((env.take s.trace == ok) && is_chip s.expander.ic)
  unfolding read_port with_lock asked
  read_port-asked s = elim (Bool-cases (env.take s.trace == ok)) [
    | inl e ↦
        rw e (read_port_locked-asked (s.expander.ic) (s.expander.timeout_ms) (env.take s.trace) s)
    | inr e ↦
        rw e (lock_take-asks (s.expander.ic) s.expander (s.expander.timeout_ms) (env.take s.trace))
  ]

  -- Reading a pin is reading the port, and taking the pin's bit.
  pub read_pin_locked-eq :
      (ic : Ic) (pin : ℕ) (s : State)
      → read_pin_locked env ic pin s ≡ pin_level pin (read_port_locked env ic s)
  unfolding read_pin_locked read_port_locked pin_level
  read_pin_locked-eq pcf8574 pin s = refl
  read_pin_locked-eq pcf8574a pin s = refl
  read_pin_locked-eq mcp23017 pin s = refl
  read_pin_locked-eq mcp23s17 pin s = refl
  read_pin_locked-eq other_ic pin s = refl

  with_lock-pin_level :
      (pin : ℕ) (body : State → Returned ℕ × State) (s : State)
      → with_lock env fail (λ s. pin_level pin (body s)) s
        ≡ pin_level pin (with_lock env fail body s)
  unfolding with_lock
  with_lock-pin_level pin body s =
      locked_level (env.take s.trace == ok) pin
        (body (log_call (lock_take (s.expander.timeout_ms) (env.take s.trace)) s))
        (env.take s.trace) (log_call (lock_take (s.expander.timeout_ms) (env.take s.trace)) s)

  same_call :
      (pin : ℕ) (s : State)
      → pin < s.expander.pin_count
      → read_pin env pin s ≡ (port_level pin (read_port env s).0, (read_port env s).1)
  unfolding read_pin read_port
  same_call pin s h =
      let e : ltb pin (s.expander.pin_count) ≡ true = omega (tests, h) in
      rw e (
        (λ j. with_lock env fail (λ s'. read_pin_locked-eq (s.expander.ic) pin s' j) s)
        ∙ with_lock-pin_level pin (read_port_locked env (s.expander.ic)) s
        ∙ pin_level-eq pin (read_port env s))

  -- For a pin that the chip has, reading it is reading the port under the same results of the lock
  -- and the bus, and taking the bit of the pin's number: the same calls, the same handle, and the
  -- port's error if that fails. If the lock is obtained and the chip is one that the driver knows, the last call
  -- but for giving the lock is the read of that chip's port, and else it is not.
  pub read_pin-read_port :
      (pin : ℕ) (s : State)
      → pin < s.expander.pin_count
      → (read_pin env pin s ≡ (port_level pin (read_port env s).0, (read_port env s).1))
        × (asked s.expander.ic s.expander ((read_pin env pin s).1.trace)
            ≡ ((env.take s.trace == ok) && is_chip s.expander.ic))
  read_pin-read_port pin s h =
      let e = same_call pin s h in
      (e, ap (λ r. asked s.expander.ic s.expander (r.1.trace)) e ∙ read_port-asked s)
