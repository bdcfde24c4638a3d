-- ===== src/Hal/GpioExpander/Session.antt =====
-- A client's calls on an open expander, one after the other, each under what the bus does at that
-- time.
use blusys.Base.{
  ℕ, ◌%◌, ◌^◌, ◌<◌, Bool, List, [], ◌∷◌, arith, ◌==◌, ltb, Bool-cases, inl, inr, if_both, tests,
}
use blusys.Hal.Error.{BlusysErr, ok}
use blusys.Hal.Result.{Returned, fail}
use blusys.Hal.GpioExpander.Defs.{
  Ic, pcf8574, pcf8574a, mcp23017, mcp23s17, other_ic, Direction, Env, State, pin_bit,
}
use blusys.Hal.GpioExpander.Bits.{set-lt, clear-lt}
use blusys.Hal.GpioExpander.Bus.{
  i2c_master_write_read, mcp23s17_read2, pcf857x_read_port, mcp23017_read_gpio,
}
use blusys.Hal.GpioExpander.Pins.{
  with_lock, is_direction, set_direction_locked, set_direction, write_pin_locked, write_pin,
  write_port_locked, write_port, read_pin, read_port, read_pin_locked, read_port_locked,
}
use blusys.Hal.GpioExpander.Registers.{pins_of, Holds, at_ic, pins_le}
use blusys.Hal.GpioExpander.Writes.{
  write_direction-Holds, write_latch-Holds, write_port_locked-Holds,
}
use blusys.Hal.GpioExpander.Reads.{read_pin_locked-eq, pin_level-state}

pub data Operation : Type 0 where
  op_set_direction : ℕ → Direction → Operation
  op_write_pin : ℕ → Bool → Operation
  op_write_port : ℕ → Operation
  op_read_pin : ℕ → Operation
  op_read_port : Operation

unfoldable pub call : Env → Operation → State → State
call env (op_set_direction pin dir) s = (set_direction env pin dir s).1
call env (op_write_pin pin level) s = (write_pin env pin level s).1
-- The port value is a uint16_t.
call env (op_write_port values) s = (write_port env (values % 2 ^ 16) s).1
call env (op_read_pin pin) s = (read_pin env pin s).1
call env op_read_port s = (read_port env s).1

unfoldable pub calls : List (Env × Operation) → State → State
calls [] s = s
calls ((env, op) ∷ rest) s = calls rest (call env op s)

module _ (env : Env) where
  with_lock-Holds :
      {R : Type 0} (ic : Ic) (refuse : BlusysErr → R) (body : State → R × State) (s : State)
      → Holds ic s.expander
      → ((s' : State) → Holds ic s'.expander → Holds ic (body s').1.expander)
      → Holds ic (with_lock env refuse body s).1.expander
  unfolding with_lock
  with_lock-Holds {R} ic refuse body s h k =
      if_both (λ (r : R × State). Holds ic r.1.expander) (env.take s.trace == ok) (k _ h) h

  set_direction_locked-Holds :
      (ic : Ic) (pin : ℕ) (dir : Direction) (s : State)
      → pin < pins_of ic
      → Holds ic s.expander
      → Holds ic (set_direction_locked env pin dir s).1.expander
  unfolding set_direction_locked
  set_direction_locked-Holds ic pin dir s hp h = rw (← h.ic_kept) (
      write_direction-Holds env (s.expander.ic) dir pin s (at_ic ic (s.expander) h)
        (rw (h.ic_kept) hp))

  set_direction-Holds :
      (ic : Ic) (pin : ℕ) (dir : Direction) (s : State)
      → Holds ic s.expander
      → Holds ic (set_direction env pin dir s).1.expander
  unfolding set_direction
  set_direction-Holds ic pin dir s h =
      let P : BlusysErr × State → Type 0 = (λ r. Holds ic r.1.expander) in
      elim (Bool-cases (ltb pin (s.expander.pin_count))) [
        | inl e ↦
            let hp : pin < pins_of ic = omega (tests, e, h.pins) in
            rw e (
              if_both P (is_direction dir)
                (with_lock-Holds ic (λ e. e) (set_direction_locked env pin dir) s h
                  (λ s' h'. set_direction_locked-Holds ic pin dir s' hp h'))
                h)
        | inr e ↦ rw e h
      ]

  write_pin_locked-Holds :
      (ic : Ic) (pin : ℕ) (level : Bool) (s : State)
      → pin < pins_of ic
      → Holds ic s.expander
      → Holds ic (write_pin_locked env pin level s).1.expander
  unfolding write_pin_locked
  write_pin_locked-Holds ic pin level s hp h = rw (← h.ic_kept) (
      write_latch-Holds env (s.expander.ic) _ s (at_ic ic (s.expander) h) (
        rw (h.ic_kept) (
          if_both (λ l. l < 2 ^ pins_of ic) level
            (set-lt (pins_of ic) (s.expander.output_latch) pin h.registers.latch_fits hp
              (pins_le ic))
            (clear-lt (pins_of ic) (s.expander.output_latch) (pin_bit pin)
              h.registers.latch_fits))))

  write_pin-Holds :
      (ic : Ic) (pin : ℕ) (level : Bool) (s : State)
      → Holds ic s.expander
      → Holds ic (write_pin env pin level s).1.expander
  unfolding write_pin
  write_pin-Holds ic pin level s h = elim (Bool-cases (ltb pin (s.expander.pin_count))) [
    | inl e ↦
        let hp : pin < pins_of ic = omega (tests, e, h.pins) in
        rw e (
          with_lock-Holds ic (λ e. e) (write_pin_locked env pin level) s h
            (λ s' h'. write_pin_locked-Holds ic pin level s' hp h'))
    | inr e ↦ rw e h
  ]

  write_port-Holds :
      (ic : Ic) (values : ℕ) (s : State)
      → values < 2 ^ 16
      → Holds ic s.expander
      → Holds ic (write_port env values s).1.expander
  unfolding write_port
  write_port-Holds ic values s hv h =
      with_lock-Holds ic (λ e. e) (write_port_locked env (s.expander.ic) values) s h
        (λ s' h'. rw (h.ic_kept) (write_port_locked-Holds env ic values s' h' hv))

  read_port_locked-Holds :
      (ic : Ic) (s : State) → Holds ic s.expander → Holds ic (read_port_locked env ic s).1.expander
  unfolding read_port_locked pcf857x_read_port mcp23017_read_gpio i2c_master_write_read
      mcp23s17_read2
  read_port_locked-Holds pcf8574 s h = h
  read_port_locked-Holds pcf8574a s h = h
  read_port_locked-Holds mcp23017 s h = h
  read_port_locked-Holds mcp23s17 s h = h
  read_port_locked-Holds other_ic s h = h

  read_port-Holds :
      (ic : Ic) (s : State) → Holds ic s.expander → Holds ic (read_port env s).1.expander
  unfolding read_port
  read_port-Holds ic s h =
      with_lock-Holds ic fail (read_port_locked env (s.expander.ic)) s h
        (λ s' h'. rw (h.ic_kept) (read_port_locked-Holds ic s' h'))

  read_pin-Holds :
      (ic : Ic) (pin : ℕ) (s : State)
      → Holds ic s.expander
      → Holds ic (read_pin env pin s).1.expander
  unfolding read_pin
  read_pin-Holds ic pin s h =
      if_both (λ (r : Returned Bool × State). Holds ic r.1.expander)
        (ltb pin (s.expander.pin_count))
        (with_lock-Holds ic fail (read_pin_locked env (s.expander.ic) pin) s h (λ s' h'.
          rw
            (
              read_pin_locked-eq env (s.expander.ic) pin s',
              pin_level-state pin (read_port_locked env (s.expander.ic) s'),
              h.ic_kept,
            )
            (read_port_locked-Holds ic s' h')))
        h

  pub call-Holds :
      (ic : Ic) (op : Operation) (s : State)
      → Holds ic s.expander
      → Holds ic (call env op s).expander
  unfolding call
  call-Holds ic (op_set_direction pin dir) s h = set_direction-Holds ic pin dir s h
  call-Holds ic (op_write_pin pin level) s h = write_pin-Holds ic pin level s h
  call-Holds ic (op_write_port values) s h = write_port-Holds ic (values % 2 ^ 16) s (omega arith) h
  call-Holds ic (op_read_pin pin) s h = read_pin-Holds ic pin s h
  call-Holds ic op_read_port s h = read_port-Holds ic s h

-- After any calls on an expander, whatever the lock and the bus return in each, the cached latch and
-- direction mask fit the chip's pins, and on a PCF8574 the latch is high at every pin that is an
-- input, if that was so before.
pub calls-Holds :
    (ic : Ic) (ops : List (Env × Operation)) (s : State)
    → Holds ic s.expander
    → Holds ic (calls ops s).expander
unfolding calls
calls-Holds ic [] s h = h
calls-Holds ic ((env, op) ∷ rest) s h =
    calls-Holds ic rest (call env op s) (call-Holds env ic op s h)
