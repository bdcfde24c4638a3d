-- ===== src/Hal/GpioExpander/Writes.antt =====
-- The switches that write the registers of an expander keep its invariant.
use blusys.Base.{ℕ, ◌^◌, ◌<◌, bit_and, bit_or, arith}
use blusys.Base.Bits.{bit_and_255}
use blusys.Base.Bits.Masks.{bit_or-lt, bit_and-lt}
use blusys.Hal.GpioExpander.Defs.{
  Ic, pcf8574, pcf8574a, mcp23017, mcp23s17, other_ic, Direction, Env, State, pin_bit, set_latch,
  set_dir,
}
use blusys.Hal.GpioExpander.Bus.{
  i2c_master_write, mcp23s17_write2, pcf857x_write_port, mcp23017_write_iodir, mcp23017_write_olat,
}
use blusys.Hal.GpioExpander.Pins.{direction_mask, write_direction, write_latch, write_port_locked}
use blusys.Hal.GpioExpander.Registers.{
  pins_of, InputsHigh, Holds, high_direction, mask_fits, latch_fits_lem, high_forced, keep,
}

module _ (env : Env) where
  pub write_direction-Holds :
      (ic : Ic) (dir : Direction) (pin : ℕ) (s : State)
      → Holds ic s.expander
      → pin < pins_of ic
      → Holds ic
          (write_direction env ic dir
            (pin_bit pin)
            (set_dir (direction_mask dir (s.expander.dir_mask) (pin_bit pin)) s)).1.expander
  unfolding write_direction i2c_master_write mcp23s17_write2 pcf857x_write_port mcp23017_write_iodir
      pins_of InputsHigh
  write_direction-Holds pcf8574 dir pin s h hp =
      let d = s.expander.dir_mask in
      let l = s.expander.output_latch in
      keep pcf8574 (s.expander) _ _ h (record {
        latch_fits = latch_fits_lem dir 8 pin l hp (omega arith) h.registers.latch_fits;
        dir_fits = mask_fits dir 8 pin d hp (omega arith) h.registers.dir_fits;
        inputs_high = high_direction dir pin d l hp h.registers.inputs_high;
      })
  write_direction-Holds pcf8574a dir pin s h hp =
      let d = s.expander.dir_mask in
      let l = s.expander.output_latch in
      keep pcf8574a (s.expander) _ _ h (record {
        latch_fits = latch_fits_lem dir 8 pin l hp (omega arith) h.registers.latch_fits;
        dir_fits = mask_fits dir 8 pin d hp (omega arith) h.registers.dir_fits;
        inputs_high = high_direction dir pin d l hp h.registers.inputs_high;
      })
  write_direction-Holds mcp23017 dir pin s h hp = keep mcp23017 (s.expander) _ _ h (record {
    latch_fits = h.registers.latch_fits;
    dir_fits = mask_fits dir 16 pin (s.expander.dir_mask) hp (omega arith) h.registers.dir_fits;
    inputs_high = tt;
  })
  write_direction-Holds mcp23s17 dir pin s h hp = keep mcp23s17 (s.expander) _ _ h (record {
    latch_fits = h.registers.latch_fits;
    dir_fits = mask_fits dir 16 pin (s.expander.dir_mask) hp (omega arith) h.registers.dir_fits;
    inputs_high = tt;
  })
  write_direction-Holds other_ic dir pin s h hp = absurd (omega arith)

  -- A latch that fits, once the inputs are forced high.
  forced : (l d : ℕ) → l < 256 → d < 256 → (bit_or l (bit_and d 0xFF) < 256)
  forced l d hl hd = bit_or-lt 8 l (bit_and d 0xFF) hl (bit_and-lt 8 d 0xFF hd)

  pub write_latch-Holds :
      (ic : Ic) (l : ℕ) (s : State)
      → Holds ic s.expander
      → l < 2 ^ pins_of ic
      → Holds ic (write_latch env ic (set_latch l s)).1.expander
  unfolding write_latch i2c_master_write mcp23s17_write2 pcf857x_write_port mcp23017_write_olat
      pins_of InputsHigh
  write_latch-Holds pcf8574 l s h hl =
      let d = s.expander.dir_mask in
      keep pcf8574 (s.expander) d _ h (record {
        latch_fits = forced l d hl h.registers.dir_fits;
        dir_fits = h.registers.dir_fits;
        inputs_high = high_forced d l;
      })
  write_latch-Holds pcf8574a l s h hl =
      let d = s.expander.dir_mask in
      keep pcf8574a (s.expander) d _ h (record {
        latch_fits = forced l d hl h.registers.dir_fits;
        dir_fits = h.registers.dir_fits;
        inputs_high = high_forced d l;
      })
  write_latch-Holds mcp23017 l s h hl =
      keep mcp23017 (s.expander) _ l h
        (record { latch_fits = hl; dir_fits = h.registers.dir_fits; inputs_high = tt })
  write_latch-Holds mcp23s17 l s h hl =
      keep mcp23s17 (s.expander) _ l h
        (record { latch_fits = hl; dir_fits = h.registers.dir_fits; inputs_high = tt })
  write_latch-Holds other_ic l s h hl =
      keep other_ic (s.expander) _ l h
        (record { latch_fits = hl; dir_fits = h.registers.dir_fits; inputs_high = tt })

  pub write_port_locked-Holds :
      (ic : Ic) (values : ℕ) (s : State)
      → Holds ic s.expander
      → values < 2 ^ 16
      → Holds ic (write_port_locked env ic values s).1.expander
  unfolding write_port_locked i2c_master_write mcp23s17_write2 pcf857x_write_port
      mcp23017_write_olat pins_of InputsHigh
  write_port_locked-Holds pcf8574 values s h hv =
      let d = s.expander.dir_mask in
      let l = bit_and values 0xFF in
      keep pcf8574 (s.expander) d _ h (record {
        latch_fits = forced l d (omega (arith, bit_and_255 values)) h.registers.dir_fits;
        dir_fits = h.registers.dir_fits;
        inputs_high = high_forced d l;
      })
  write_port_locked-Holds pcf8574a values s h hv =
      let d = s.expander.dir_mask in
      let l = bit_and values 0xFF in
      keep pcf8574a (s.expander) d _ h (record {
        latch_fits = forced l d (omega (arith, bit_and_255 values)) h.registers.dir_fits;
        dir_fits = h.registers.dir_fits;
        inputs_high = high_forced d l;
      })
  write_port_locked-Holds mcp23017 values s h hv =
      keep mcp23017 (s.expander) _ values h
        (record { latch_fits = hv; dir_fits = h.registers.dir_fits; inputs_high = tt })
  write_port_locked-Holds mcp23s17 values s h hv =
      keep mcp23s17 (s.expander) _ values h
        (record { latch_fits = hv; dir_fits = h.registers.dir_fits; inputs_high = tt })
  write_port_locked-Holds other_ic values s h hv = h
