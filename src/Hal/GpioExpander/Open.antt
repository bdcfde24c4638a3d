-- ===== src/Hal/GpioExpander/Open.antt =====
-- Opening and closing in components/blusys/src/hal/gpio_expander.c.
use blusys.Base.{
  ℕ, Bool, true, false, not, ◌&&◌, ◌||◌, Option, none, some, [], ◌∷◌, ◌==◌, ltb, if◌then◌else◌,
}
use blusys.Base.Int.{ℤ, negsuc}
use blusys.Hal.Error.{BlusysErr, ok, err_invalid_arg, err_no_mem}
use blusys.Hal.Result.{Returned, done, fail}
use blusys.Hal.GpioExpander.Defs.{
  Ic, pcf8574, pcf8574a, mcp23017, mcp23s17, other_ic, Expander, allocated, freed, lock_deinit,
  lock_give, lock_init, lock_take, Trace, Env, State, set_latch, set_dir, is_pcf,
}
use blusys.Hal.GpioExpander.Bus.{
  reg_iodir, reg_iocon, reg_olat, i2c_master_write, i2c_master_write_read, mcp23s17_write,
  mcp23s17_write2, mcp23s17_read2, pcf857x_write_port,
}

-- `blusys_gpio_expander_config_t`; of the bus handles, whether they are non-NULL.
pub record Config : Type 0 where
  pub ic : Ic
  pub i2c : Bool
  pub i2c_address : ℕ
  pub spi : Bool
  pub hw_addr : ℕ
  pub timeout_ms : ℤ

-- The first switch of `blusys_gpio_expander_open`.
unfoldable pub transport_fits : Ic → Config → Bool
transport_fits pcf8574 c = c.i2c && not c.spi
transport_fits pcf8574a c = c.i2c && not c.spi
transport_fits mcp23017 c = c.i2c && not c.spi
transport_fits mcp23s17 c = c.spi && not c.i2c && not (ltb 7 c.hw_addr)
transport_fits other_ic c = false

unfoldable pub address_fits : Ic → ℕ → Bool
address_fits pcf8574 a = not (ltb a 0x20 || ltb 0x27 a)
address_fits pcf8574a a = not (ltb a 0x38 || ltb 0x3F a)
address_fits mcp23017 a = not (ltb a 0x20 || ltb 0x27 a)
address_fits _ a = true

-- The fields that are set before the hardware is touched; the rest are zero from `calloc`.
unfoldable pub new_expander : Config → Expander
new_expander c = record {
  ic = c.ic;
  i2c_address = c.i2c_address;
  hw_addr = c.hw_addr;
  timeout_ms = c.timeout_ms;
  output_latch = 0;
  dir_mask = 0;
  pin_count = if is_pcf c.ic then 8 else 16;
}

-- The next step of a chain that stops at the first error.
abbrev pub next : BlusysErr × State → (State → BlusysErr × State) → BlusysErr × State
next (e, s) k = let r = k s in if e == ok then r else (e, s)

-- A read whose result is stored.
unfoldable pub store : Returned ℕ × State → (ℕ → State → State) → BlusysErr × State
store (done v, s) f = (ok, f v s)
store (fail e, s) f = (e, s)

module _ (env : Env) where
  -- The second switch: the hardware initialisation.
  unfoldable pub init_hardware : Ic → State → BlusysErr × State
  init_hardware pcf8574 s = pcf857x_write_port env (set_dir 0xFF (set_latch 0xFF s))
  init_hardware pcf8574a s = pcf857x_write_port env (set_dir 0xFF (set_latch 0xFF s))
  init_hardware mcp23017 s = next (i2c_master_write env (reg_iocon ∷ 0 ∷ []) s) (λ s.
      next (store (i2c_master_write_read env reg_iodir s) set_dir)
        (λ s. store (i2c_master_write_read env reg_olat s) set_latch))
  init_hardware mcp23s17 s = next (mcp23s17_write env reg_iocon 0 s) (λ s.
      next (store (mcp23s17_read2 env reg_iodir s) set_dir)
        (λ s. store (mcp23s17_read2 env reg_olat s) set_latch))
  init_hardware other_ic s = (err_invalid_arg, s)

  -- From `calloc` on. The result is the new handle, and the trace.
  unfoldable pub finish_open : BlusysErr × State → Returned Expander × Trace
  finish_open (err, s) =
      if err == ok then (done (s.expander), s.trace) else (fail err, freed ∷ lock_deinit ∷ s.trace)

  unfoldable pub build : Config → Trace → Returned Expander × Trace
  build c t =
      let s : State = record {
        expander = new_expander c;
        trace = lock_init env.init ∷ allocated ∷ t;
      } in
      let built = finish_open (init_hardware c.ic s) in
      if not env.alloc
      then (fail err_no_mem, t)
      else if env.init == ok
      then built
      else (fail env.init, freed ∷ s.trace)

  unfoldable pub open_config : Config → Trace → Returned Expander × Trace
  open_config c t =
      let built = build c t in
      if not (transport_fits c.ic c)
      then (fail err_invalid_arg, t)
      else if address_fits c.ic c.i2c_address
      then built
      else (fail err_invalid_arg, t)

  -- `blusys_gpio_expander_open`: a config that is NULL is none; `has_out` says whether `out_handle`
  -- is non-NULL.
  unfoldable pub gpio_expander_open : Option Config → Bool → Trace → Returned Expander × Trace
  gpio_expander_open none has_out t = (fail err_invalid_arg, t)
  gpio_expander_open (some c) has_out t =
      let opened = open_config c t in if has_out then opened else (fail err_invalid_arg, t)

  -- The best-effort reset of `blusys_gpio_expander_close`, whose errors are ignored.
  unfoldable pub reset_hardware : Ic → State → State
  reset_hardware pcf8574 s = (i2c_master_write env (0xFF ∷ []) s).1
  reset_hardware pcf8574a s = (i2c_master_write env (0xFF ∷ []) s).1
  reset_hardware mcp23017 s =
      (i2c_master_write env (reg_olat ∷ 0 ∷ 0 ∷ [])
        (i2c_master_write env (reg_iodir ∷ 0xFF ∷ 0xFF ∷ []) s).1).1
  reset_hardware mcp23s17 s =
      (mcp23s17_write2 env reg_olat 0 0 (mcp23s17_write2 env reg_iodir 0xFF 0xFF s).1).1
  reset_hardware other_ic s = s

  -- `blusys_gpio_expander_close`: the result, the handle if it is still there, and the trace.
  unfoldable pub gpio_expander_close : Option Expander → Trace → BlusysErr × Option Expander × Trace
  gpio_expander_close none t = (err_invalid_arg, none, t)
  gpio_expander_close (some e) t =
      let err = env.take t in
      let s : State = record { expander = e; trace = lock_take (negsuc 0) err ∷ t } in
      let s2 = reset_hardware e.ic s in
      if err == ok
      then (ok, none, freed ∷ lock_deinit ∷ lock_give ∷ s2.trace)
      else (err, some e, s.trace)
