-- ===== src/Hal/GpioExpander/Opened.antt =====
-- What opening an expander leaves: a handle that meets the invariant, or nothing.
use blusys.Base.{ℕ, ◌<◌, ◌≡◌, refl, true, not, [], ◌∷◌, arith, ◌==◌, Bool-cases, inl, inr, if_both}
use blusys.Hal.Error.{BlusysErr, ok}
use blusys.Hal.GpioExpander.Defs.{
  Ic, pcf8574, pcf8574a, mcp23017, mcp23s17, other_ic, Env, State, Trace, set_latch, set_dir,
  join_bytes,
}
use blusys.Hal.GpioExpander.Bus.{
  i2c_master_write, i2c_master_write_read, mcp23s17_write, mcp23s17_read2, pcf857x_write_port,
  reg_iodir, reg_olat, reg_iocon,
}
use blusys.Hal.GpioExpander.Registers.{pins_of, InputsHigh}
use blusys.Hal.GpioExpander.Open.{
  Config, transport_fits, address_fits, next, store, init_hardware, finish_open, build, open_config,
}
use blusys.Hal.GpioExpander.Ready.{
  blocks, locks, DeliversBytes, Opened, Ready, next-Ready, store-Ready, called-Ready, stored-Ready,
  all_inputs, wide_fits, new_expander-Holds,
}

module _ (env : Env) (bytes : DeliversBytes env) where
  read_i2c-Ready :
      (t : Trace) (reg : ℕ) (f : ℕ → State → State) (s : State)
      → Ready mcp23017 t s
      → ((v : ℕ) (s : State) → v < 65536 → Ready mcp23017 t s → Ready mcp23017 t (f v s))
      → Ready mcp23017 t (store (i2c_master_write_read env reg s) f).1
  unfolding i2c_master_write_read blocks locks
  read_i2c-Ready t reg f s h hf =
      let (b0, b1) = bytes.write_read_bytes s.trace in
      let v = join_bytes (env.write_read s.trace).1 (env.write_read s.trace).2 in
      let h' = called-Ready mcp23017 t s _ refl refl h in
      store-Ready mcp23017 t ((env.write_read s.trace).0) v _ f h' (hf v _ (wide_fits _ _ b0 b1) h')

  read_spi-Ready :
      (t : Trace) (reg : ℕ) (f : ℕ → State → State) (s : State)
      → Ready mcp23s17 t s
      → ((v : ℕ) (s : State) → v < 65536 → Ready mcp23s17 t s → Ready mcp23s17 t (f v s))
      → Ready mcp23s17 t (store (mcp23s17_read2 env reg s) f).1
  unfolding mcp23s17_read2 blocks locks
  read_spi-Ready t reg f s h hf =
      let (b0, b1) = bytes.transfer_bytes s.trace in
      let v = join_bytes (env.transfer s.trace).1 (env.transfer s.trace).2 in
      let h' = called-Ready mcp23s17 t s _ refl refl h in
      store-Ready mcp23s17 t ((env.transfer s.trace).0) v _ f h' (hf v _ (wide_fits _ _ b0 b1) h')

  set_dir-Ready :
      (ic : Ic) (t : Trace) (v : ℕ) (s : State)
      → v < 65536
      → pins_of ic ≡ 16
      → ((d l : ℕ) → InputsHigh ic d l)
      → Ready ic t s
      → Ready ic t (set_dir v s)
  set_dir-Ready ic t v s hv p free h =
      stored-Ready ic t s v (s.expander.output_latch)
        (record {
          latch_fits = h.holds.registers.latch_fits;
          dir_fits = rw p hv;
          inputs_high = free _ _;
        })
        h

  set_latch-Ready :
      (ic : Ic) (t : Trace) (v : ℕ) (s : State)
      → v < 65536
      → pins_of ic ≡ 16
      → ((d l : ℕ) → InputsHigh ic d l)
      → Ready ic t s
      → Ready ic t (set_latch v s)
  set_latch-Ready ic t v s hv p free h =
      stored-Ready ic t s (s.expander.dir_mask) v
        (record {
          latch_fits = rw p hv;
          dir_fits = h.holds.registers.dir_fits;
          inputs_high = free _ _;
        })
        h

  init_hardware-Ready :
      (ic : Ic) (t : Trace) (s : State) → Ready ic t s → Ready ic t (init_hardware env ic s).1
  unfolding init_hardware i2c_master_write pcf857x_write_port mcp23s17_write blocks locks pins_of
      InputsHigh
  init_hardware-Ready pcf8574 t s h = called-Ready pcf8574 t _ _ refl refl (
      stored-Ready pcf8574 t s 0xFF 0xFF
        (record { latch_fits = omega arith; dir_fits = omega arith; inputs_high = all_inputs }) h)
  init_hardware-Ready pcf8574a t s h = called-Ready pcf8574a t _ _ refl refl (
      stored-Ready pcf8574a t s 0xFF 0xFF
        (record { latch_fits = omega arith; dir_fits = omega arith; inputs_high = all_inputs }) h)
  init_hardware-Ready mcp23017 t s h =
      next-Ready mcp23017 t (i2c_master_write env (reg_iocon ∷ 0 ∷ []) s)
        (λ s.
          next (store (i2c_master_write_read env reg_iodir s) set_dir)
            (λ s. store (i2c_master_write_read env reg_olat s) set_latch))
        (called-Ready mcp23017 t s _ refl refl h)
        (λ s h.
          next-Ready mcp23017 t (store (i2c_master_write_read env reg_iodir s) set_dir)
            (λ s. store (i2c_master_write_read env reg_olat s) set_latch)
            (read_i2c-Ready t reg_iodir set_dir s h
              (λ v s hv h. set_dir-Ready mcp23017 t v s hv refl (λ d l. tt) h))
            (λ s h.
              read_i2c-Ready t reg_olat set_latch s h
                (λ v s hv h. set_latch-Ready mcp23017 t v s hv refl (λ d l. tt) h)))
  init_hardware-Ready mcp23s17 t s h =
      next-Ready mcp23s17 t (mcp23s17_write env reg_iocon 0 s)
        (λ s.
          next (store (mcp23s17_read2 env reg_iodir s) set_dir)
            (λ s. store (mcp23s17_read2 env reg_olat s) set_latch))
        (called-Ready mcp23s17 t s _ refl refl h)
        (λ s h.
          next-Ready mcp23s17 t (store (mcp23s17_read2 env reg_iodir s) set_dir)
            (λ s. store (mcp23s17_read2 env reg_olat s) set_latch)
            (read_spi-Ready t reg_iodir set_dir s h
              (λ v s hv h. set_dir-Ready mcp23s17 t v s hv refl (λ d l. tt) h))
            (λ s h.
              read_spi-Ready t reg_olat set_latch s h
                (λ v s hv h. set_latch-Ready mcp23s17 t v s hv refl (λ d l. tt) h)))
  init_hardware-Ready other_ic t s h = h

  finish_open-Opened :
      (c : Config) (t : Trace) (r : BlusysErr × State)
      → Ready c.ic t r.1
      → Opened c t (finish_open env r)
  unfolding finish_open Opened blocks locks
  finish_open-Opened c t (err, s) h =
      if_both (Opened c t) (err == ok) (h.holds, h.one_block, h.one_lock)
        (omega (arith, h.one_block), omega (arith, h.one_lock))

  build-Opened :
      (c : Config) (t : Trace) → transport_fits c.ic c ≡ true → Opened c t (build env c t)
  unfolding build Opened blocks locks
  build-Opened c t fits =
      if_both (Opened c t) (not env.alloc) (refl, refl)
        (elim (Bool-cases (env.init == ok)) [
          | inl e ↦ rw e (
              finish_open-Opened c t (init_hardware env c.ic _) (
                init_hardware-Ready c.ic t _ (record {
                  holds = new_expander-Holds c fits;
                  one_block = refl;
                  one_lock = rw e refl;
                })))
          | inr e ↦ rw e (omega arith, rw e refl)
        ])

  -- Opening an expander either gives a handle that meets the invariant for the configured chip, with
  -- one block and one lock taken, or an error with none, if the bus delivers bytes.
  pub open_config-Opened : (c : Config) (t : Trace) → Opened c t (open_config env c t)
  unfolding open_config Opened
  open_config-Opened c t = elim (Bool-cases (transport_fits c.ic c)) [
    | inl e ↦
        rw e
          (if_both (Opened c t) (address_fits c.ic c.i2c_address) (build-Opened c t e) (refl, refl))
    | inr e ↦ rw e (refl, refl)
  ]
