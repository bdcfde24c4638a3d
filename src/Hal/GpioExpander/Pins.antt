-- ===== src/Hal/GpioExpander/Pins.antt =====
-- The pin and port operations of components/blusys/src/hal/gpio_expander.c on an open handle, and
-- as a client calls them, with a handle or an output pointer that may be NULL.
use blusys.Base.{
  ℕ, ◌/◌, ◌%◌, ◌^◌, Bool, true, false, not, ◌==◌, ltb, if◌then◌else◌, bit_and, bit_or,
}
use blusys.Hal.Error.{BlusysErr, ok, err_invalid_arg}
use blusys.Hal.Result.{Returned, done, fail}
use blusys.Hal.GpioExpander.Defs.{
  Ic, pcf8574, pcf8574a, mcp23017, mcp23s17, other_ic, Direction, input, other_dir, Env, State,
  lock_take, lock_give, log_call, set_latch, set_dir, low_byte, high_byte, pin_bit, clear_bit,
}
use blusys.Hal.GpioExpander.Bus.{
  reg_iodir, reg_gpio, reg_olat, mcp23s17_write2, mcp23s17_read2, pcf857x_write_port,
  pcf857x_read_port, mcp23017_write_iodir, mcp23017_write_olat, mcp23017_read_gpio,
}

-- The direction mask and the latch after a change of direction. The direction is not `other_dir`,
-- which `set_direction` has rejected.
unfoldable pub direction_mask : Direction → ℕ → ℕ → ℕ
direction_mask input dir_mask bit = bit_or dir_mask bit
direction_mask _ dir_mask bit = clear_bit dir_mask bit

unfoldable pub direction_latch : Direction → ℕ → ℕ → ℕ
direction_latch input latch bit = bit_or latch bit
direction_latch _ latch bit = latch

unfoldable pub is_direction : Direction → Bool
is_direction other_dir = false
is_direction _ = true

-- `(port >> pin) & 1u`, of the port that the same switch reads.
unfoldable pub pin_level : ℕ → Returned ℕ × State → Returned Bool × State
pin_level pin (done port, s) = (done (port / 2 ^ pin % 2 == 1), s)
pin_level pin (fail e, s) = (fail e, s)

module _ (env : Env) where
  -- The lock around the body of an operation; `refuse` makes the operation's result of an error.
  unfoldable pub with_lock :
      {R : Type 0} → (BlusysErr → R) → (State → R × State) → State → R × State
  with_lock refuse body s =
      let err = env.take s.trace in
      let s1 = log_call (lock_take (s.expander.timeout_ms) err) s in
      let (r, s2) = body s1 in if err == ok then (r, log_call lock_give s2) else (refuse err, s1)

  unfoldable pub write_direction : Ic → Direction → ℕ → State → BlusysErr × State
  write_direction pcf8574 dir bit s =
      pcf857x_write_port env (set_latch (direction_latch dir (s.expander.output_latch) bit) s)
  write_direction pcf8574a dir bit s =
      pcf857x_write_port env (set_latch (direction_latch dir (s.expander.output_latch) bit) s)
  write_direction mcp23017 dir bit s = mcp23017_write_iodir env s
  write_direction mcp23s17 dir bit s =
      let m = s.expander.dir_mask in mcp23s17_write2 env reg_iodir (low_byte m) (high_byte m) s
  write_direction other_ic dir bit s = (err_invalid_arg, s)

  unfoldable pub set_direction_locked : ℕ → Direction → State → BlusysErr × State
  set_direction_locked pin dir s =
      let s1 = set_dir (direction_mask dir (s.expander.dir_mask) (pin_bit pin)) s in
      write_direction (s.expander.ic) dir (pin_bit pin) s1

  unfoldable pub set_direction : ℕ → Direction → State → BlusysErr × State
  set_direction pin dir s =
      let locked = with_lock (λ e. e) (set_direction_locked pin dir) s in
      if not (ltb pin (s.expander.pin_count))
      then (err_invalid_arg, s)
      else if is_direction dir
      then locked
      else (err_invalid_arg, s)

  -- The switches of `blusys_gpio_expander_write_pin`, after the latch is changed, and of
  -- `blusys_gpio_expander_write_port`.
  unfoldable pub write_latch : Ic → State → BlusysErr × State
  write_latch pcf8574 s =
      pcf857x_write_port env
        (set_latch (bit_or (s.expander.output_latch) (bit_and (s.expander.dir_mask) 0xFF)) s)
  write_latch pcf8574a s =
      pcf857x_write_port env
        (set_latch (bit_or (s.expander.output_latch) (bit_and (s.expander.dir_mask) 0xFF)) s)
  write_latch mcp23017 s = mcp23017_write_olat env s
  write_latch mcp23s17 s =
      let m = s.expander.output_latch in mcp23s17_write2 env reg_olat (low_byte m) (high_byte m) s
  write_latch other_ic s = (err_invalid_arg, s)

  unfoldable pub write_pin_locked : ℕ → Bool → State → BlusysErr × State
  write_pin_locked pin level s =
      let latch = s.expander.output_latch in
      let latch' = if level then bit_or latch (pin_bit pin) else clear_bit latch (pin_bit pin) in
      write_latch (s.expander.ic) (set_latch latch' s)

  unfoldable pub write_pin : ℕ → Bool → State → BlusysErr × State
  write_pin pin level s =
      let locked = with_lock (λ e. e) (write_pin_locked pin level) s in
      if ltb pin (s.expander.pin_count) then locked else (err_invalid_arg, s)

  unfoldable pub write_port_locked : Ic → ℕ → State → BlusysErr × State
  write_port_locked pcf8574 values s =
      pcf857x_write_port env
        (set_latch (bit_or (bit_and values 0xFF) (bit_and (s.expander.dir_mask) 0xFF)) s)
  write_port_locked pcf8574a values s =
      pcf857x_write_port env
        (set_latch (bit_or (bit_and values 0xFF) (bit_and (s.expander.dir_mask) 0xFF)) s)
  write_port_locked mcp23017 values s = mcp23017_write_olat env (set_latch values s)
  write_port_locked mcp23s17 values s =
      mcp23s17_write2 env reg_olat (low_byte values) (high_byte values) (set_latch values s)
  write_port_locked other_ic values s = (err_invalid_arg, s)

  -- `values` is a uint16_t.
  unfoldable pub write_port : ℕ → State → BlusysErr × State
  write_port values s = with_lock (λ e. e) (write_port_locked (s.expander.ic) values) s

  -- The switch of `blusys_gpio_expander_read_port`.
  unfoldable pub read_port_locked : Ic → State → Returned ℕ × State
  read_port_locked pcf8574 s = pcf857x_read_port env s
  read_port_locked pcf8574a s = pcf857x_read_port env s
  read_port_locked mcp23017 s = mcp23017_read_gpio env s
  read_port_locked mcp23s17 s = mcp23s17_read2 env reg_gpio s
  read_port_locked other_ic s = (fail err_invalid_arg, s)

  unfoldable pub read_port : State → Returned ℕ × State
  read_port s = with_lock fail (read_port_locked (s.expander.ic)) s

  unfoldable pub read_pin_locked : Ic → ℕ → State → Returned Bool × State
  read_pin_locked pcf8574 pin s = pin_level pin (pcf857x_read_port env s)
  read_pin_locked pcf8574a pin s = pin_level pin (pcf857x_read_port env s)
  read_pin_locked mcp23017 pin s = pin_level pin (mcp23017_read_gpio env s)
  read_pin_locked mcp23s17 pin s = pin_level pin (mcp23s17_read2 env reg_gpio s)
  read_pin_locked other_ic pin s = (fail err_invalid_arg, s)

  unfoldable pub read_pin : ℕ → State → Returned Bool × State
  read_pin pin s =
      let locked = with_lock fail (read_pin_locked (s.expander.ic) pin) s in
      if ltb pin (s.expander.pin_count) then locked else (fail err_invalid_arg, s)
