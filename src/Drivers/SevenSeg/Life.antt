-- ===== src/Drivers/SevenSeg/Life.antt =====
-- Opening and closing the display of components/blusys/src/drivers/seven_seg.c.
use blusys.Base.{
  ℕ, zero, suc, ◌+◌, ◌-◌, ◌%◌, ◌^◌, Bool, true, false, not, ◌||◌, Option, none, some, List, [], ◌∷◌,
  ltb, ◌==◌, if◌then◌else◌, get_or, set, replicate,
}
use blusys.Base.Int.{pos, negsuc}
use blusys.Hal.Error.{
  BlusysErr, ok, err_invalid_arg, err_no_mem, err_code, blusys_err, err_domain_driver_seven_seg,
  translate_esp_err,
}
use blusys.Drivers.SevenSeg.Defs.{
  Driver, gpio, hc595, max7219, unknown, Display, Pin, set_level, spi_bus_initialize,
  spi_bus_add_device, spi_bus_remove_device, spi_bus_free, lock_init, lock_deinit, lock_take,
  lock_give, timer_create, timer_start_periodic, timer_stop, timer_delete, alloc, report_oom, free,
  Trace, Env, ◌▷◌, max_digits, reg_digit0, reg_disp_test, reg_decode_mode, reg_scan_limit,
  reg_intensity, reg_shutdown,
}
use blusys.Drivers.SevenSeg.Wire.{
  is_unwired, max7219_write, configure_output, reset_output, hc595_shift_out, inactive_common,
}

-- `blusys_seven_seg_gpio_config_t`, its eight segment pins in the order a to g, dp.
pub record GpioConfig : Type 0 where
  pub pins : List Pin
  pub common_pins : List Pin
  pub common_anode : Bool

-- `blusys_seven_seg_595_config_t`
pub record Hc595Config : Type 0 where
  pub data_pin : Pin
  pub clk_pin : Pin
  pub latch_pin : Pin
  pub common_pins : List Pin
  pub common_anode : Bool

-- `blusys_seven_seg_max7219_config_t`
pub record Max7219Config : Type 0 where
  pub mosi_pin : Pin
  pub clk_pin : Pin
  pub cs_pin : Pin

-- `blusys_seven_seg_config_t`
pub record Config : Type 0 where
  pub driver : Driver
  pub digit_count : ℕ
  pub gpio_config : GpioConfig
  pub hc595_config : Hc595Config
  pub max7219_config : Max7219Config

abbrev pub no_pin : Pin
no_pin = negsuc 0

abbrev pub is_max7219 : Driver → Bool
is_max7219 max7219 = true
is_max7219 _ = false

-- What a helper that works on the handle returns.
abbrev pub Outcome : Type 0
Outcome = BlusysErr × Display × Trace

module _ (env : Env) where
  -- The segment loop of `open_gpio`, from segment i with the rounds left.
  unfoldable pub open_segments : ℕ → ℕ → List Pin → Bool → Display → Trace → Outcome
  open_segments zero i pins anode d t = (ok, d, t)
  open_segments (suc n) i pins anode d t =
      let pin = get_or pins i no_pin in
      let d' = record d { seg_pins = set d.seg_pins i pin } in
      let (err, t') = configure_output env pin t in
      let t'' = if is_unwired pin then t' else t' ▷ set_level pin (if anode then 1 else 0) in
      let rest = open_segments n (i + 1) pins anode d' t'' in
      if err == ok then rest else (err, d', t')

  -- The common-pin loop of `open_gpio` and `open_hc595`.
  unfoldable pub open_commons : ℕ → ℕ → List Pin → Bool → Display → Trace → Outcome
  open_commons zero i pins anode d t = (ok, d, t)
  open_commons (suc n) i pins anode d t =
      let pin = get_or pins i no_pin in
      let d' = record d { common_pins = set d.common_pins i pin } in
      let (err, t') = configure_output env pin t in
      let rest =
        open_commons n (i + 1) pins anode d' (t' ▷ set_level pin (inactive_common anode)) in
      if is_unwired pin then (err_invalid_arg, d, t) else if err == ok then rest else (err, d', t')

  -- What both do last: the pins of the digits, then `common_anode`.
  unfoldable pub finish_commons : List Pin → Bool → Display → Trace → Outcome
  unfolding open_commons
  finish_commons pins anode d t =
      let (err, d', t') = open_commons d.digit_count 0 pins anode d t in
      if err == ok then (ok, record d' { common_anode = anode }, t') else (err, d', t')

  unfoldable pub open_gpio : GpioConfig → Display → Trace → Outcome
  unfolding open_segments finish_commons
  open_gpio cfg d t =
      let (err, d', t') = open_segments 8 0 cfg.pins cfg.common_anode d t in
      if err == ok then finish_commons cfg.common_pins cfg.common_anode d' t' else (err, d', t')

  -- The loop over `shift_pins`.
  unfoldable pub open_shift_pins : List Pin → Trace → BlusysErr × Trace
  open_shift_pins [] t = (ok, t)
  open_shift_pins (pin ∷ pins) t =
      let (err, t') = configure_output env pin t in
      let rest = open_shift_pins pins (t' ▷ set_level pin 0) in
      if err == ok then rest else (err, t')

  unfoldable pub open_hc595 : Hc595Config → Display → Trace → Outcome
  unfolding open_shift_pins finish_commons hc595_shift_out
  open_hc595 cfg d t =
      let d' = record d {
        data_pin = cfg.data_pin;
        clk_pin = cfg.clk_pin;
        latch_pin = cfg.latch_pin;
      } in
      let (err, t') = open_shift_pins (cfg.data_pin ∷ cfg.clk_pin ∷ cfg.latch_pin ∷ []) t in
      if err == ok
      then finish_commons cfg.common_pins cfg.common_anode d'
          (hc595_shift_out d' (if cfg.common_anode then 0xFF else 0x00) t')
      else (err, d', t')

  -- A row of register writes that stops at the first failure.
  unfoldable pub write_registers : List (ℕ × ℕ) → Trace → BlusysErr × Trace
  write_registers [] t = (ok, t)
  write_registers ((reg, value) ∷ rest) t =
      let (err, t') = max7219_write env reg value t in
      let next = write_registers rest t' in if err == ok then next else (err, t')

  -- The blanking loop of `open_max7219`, from digit i, as the writes that it makes.
  unfoldable pub blank_writes : ℕ → ℕ → List (ℕ × ℕ)
  blank_writes zero i = (reg_shutdown, 0x01) ∷ []
  blank_writes (suc n) i = ((reg_digit0 + i) % 2 ^ 8, 0x00) ∷ blank_writes n (i + 1)

  unfoldable pub init_writes : ℕ → List (ℕ × ℕ)
  unfolding blank_writes
  init_writes digit_count =
      (reg_disp_test, 0x00)
      ∷ (reg_decode_mode, 0x00)
      ∷ (reg_scan_limit, (digit_count + 2 ^ 8 - 1) % 2 ^ 8)
      ∷ (reg_intensity, 0x08)
      ∷ blank_writes digit_count 0

  unfoldable pub open_max7219 : Max7219Config → ℕ → Display → Trace → Outcome
  unfolding write_registers init_writes
  open_max7219 cfg digit_count d t =
      let bus = spi_bus_initialize cfg.mosi_pin cfg.clk_pin in
      let t1 = t ▷ bus in
      let e1 = translate_esp_err (env.esp t bus) in
      let dev = spi_bus_add_device cfg.cs_pin in
      let t2 = t1 ▷ dev in
      let e2 = translate_esp_err (env.esp t1 dev) in
      let (e3, t3) = write_registers (init_writes digit_count) t2 in
      if not (env.pin_valid cfg.mosi_pin)
        || not (env.pin_valid cfg.clk_pin)
        || not (env.pin_valid cfg.cs_pin)
      then (err_invalid_arg, d, t)
      else if not (e1 == ok)
      then (e1, d, t1)
      else if not (e2 == ok)
      then (e2, d, t2 ▷ spi_bus_free)
      else if not (e3 == ok)
      then (e3, record d { has_spi_dev = false }, t3 ▷ spi_bus_remove_device ▷ spi_bus_free)
      else (ok, record d { has_spi_dev = true }, t3)

  unfoldable pub open_driver : Driver → Config → Display → Trace → Outcome
  open_driver gpio cfg d t = open_gpio cfg.gpio_config d t
  open_driver hc595 cfg d t = open_hc595 cfg.hc595_config d t
  open_driver max7219 cfg d t = open_max7219 cfg.max7219_config cfg.digit_count d t
  open_driver unknown cfg d t = (err_invalid_arg, d, t)

  -- The handle after `calloc` and the assignments that follow it.
  abbrev pub initial : Config → Display
  initial cfg = record {
    driver = cfg.driver;
    digit_count = cfg.digit_count;
    buf = replicate max_digits 0;
    common_pins = replicate max_digits no_pin;
    common_anode = false;
    has_timer = false;
    active_digit = 0;
    seg_pins = replicate 8 no_pin;
    data_pin = pos 0;
    clk_pin = pos 0;
    latch_pin = pos 0;
    has_spi_dev = false;
  }

  -- The multiplexing timer, which the MAX7219 does not need; on failure, `fail_driver`.
  unfoldable pub start_mux : Display → Trace → BlusysErr × Option Display × Trace
  start_mux d t =
      let t1 = t ▷ timer_create in
      let t2 = t1 ▷ timer_start_periodic in
      let e1 = translate_esp_err (env.esp t timer_create) in
      let e2 = translate_esp_err (env.esp t1 timer_start_periodic) in
      if is_max7219 d.driver
      then (ok, some d, t)
      else if not (e1 == ok)
      then (e1, none, t1 ▷ lock_deinit ▷ free)
      else if not (e2 == ok)
      then (e2, none, t2 ▷ timer_delete ▷ lock_deinit ▷ free)
      else (ok, some (record d { has_timer = true }), t2)

  -- `config` is none for NULL; `has_out` says that `out_display` is not.
  unfoldable pub seven_seg_open : Option Config → Bool → Trace → BlusysErr × Option Display × Trace
  unfolding open_driver start_mux
  seven_seg_open none has_out t = (err_invalid_arg, none, t)
  seven_seg_open (some cfg) has_out t =
      let t1 = t ▷ alloc in
      let t2 = t1 ▷ lock_init in
      let e2 = env.err t1 lock_init in
      let (e3, d, t3) = open_driver cfg.driver cfg (initial cfg) t2 in
      let started = start_mux d t3 in
      if not has_out || cfg.digit_count == 0 || ltb max_digits cfg.digit_count
      then (err_invalid_arg, none, t)
      else if not (env.has_memory)
      then (blusys_err err_domain_driver_seven_seg (err_code err_no_mem), none, t1 ▷ report_oom)
      else if not (e2 == ok)
      then (e2, none, t2 ▷ free)
      else if not (e3 == ok)
      then (e3, none, t3 ▷ lock_deinit ▷ free)
      else started

  unfoldable pub reset_outputs : ℕ → ℕ → List Pin → Trace → Trace
  reset_outputs zero i pins t = t
  reset_outputs (suc n) i pins t =
      reset_outputs n (i + 1) pins (reset_output (get_or pins i no_pin) t)

  unfoldable pub close_driver : Driver → Display → Trace → Trace
  unfolding reset_outputs
  close_driver max7219 d t =
      (max7219_write env reg_shutdown 0x00 t).1 ▷ spi_bus_remove_device ▷ spi_bus_free
  close_driver gpio d t =
      reset_outputs d.digit_count 0 d.common_pins (reset_outputs 8 0 d.seg_pins t)
  close_driver _ d t =
      reset_outputs d.digit_count 0 d.common_pins
        (reset_output d.latch_pin (reset_output d.clk_pin (reset_output d.data_pin t)))

  -- none is NULL. Where the lock cannot be taken the handle lives on, without its timer.
  unfoldable pub seven_seg_close : Option Display → Trace → BlusysErr × Option Display × Trace
  unfolding close_driver
  seven_seg_close none t = (err_invalid_arg, none, t)
  seven_seg_close (some d) t =
      let t1 = if d.has_timer then t ▷ timer_stop ▷ timer_delete else t in
      let e = env.err t1 lock_take in
      if e == ok
      then (ok, none, close_driver d.driver d (t1 ▷ lock_take) ▷ lock_give ▷ lock_deinit ▷ free)
      else (e, some (record d { has_timer = false }), t1 ▷ lock_take)
