-- ===== src/Drivers/Button/Open.antt =====
-- Opening and closing a button of components/blusys/src/drivers/button.c. What the heap, the lock,
-- the timers and the GPIO module return is decided by an environment; the calls are recorded,
-- newest first.
use blusys.Base.{
  ℕ, Bool, true, false, not, Option, none, some, List, [], ◌∷◌, ◌==◌, ltb, if◌then◌else◌,
}
use blusys.Hal.Error.{
  BlusysErr, ok, err_invalid_arg, err_no_mem, EspErr, translate_esp_err_in,
  err_domain_driver_button,
}
use blusys.Hal.Result.{Returned, done, fail}
use blusys.Drivers.Button.Defs.{Button}

-- `blusys_button_config_t` less the pin and its pull mode.
pub record Config : Type 0 where
  pub active_low : Bool
  pub debounce_ms : ℕ
  pub long_press_ms : ℕ

-- The debounce time that the handle keeps.
unfoldable pub debounce_or_default : ℕ → ℕ
debounce_or_default debounce_ms = if ltb 0 debounce_ms then debounce_ms else 50

-- The calls of the GPIO module, in the order of opening.
pub data GpioOp : Type 0 where
  gpio_reset gpio_set_input gpio_set_pull_mode gpio_set_interrupt gpio_set_callback : GpioOp

pub data Call : Type 0 where
  allocated freed lock_deinit : Call
  lock_init : BlusysErr → Call
  timer_create : EspErr → Call
  timer_stop timer_delete : Call
  gpio_call : GpioOp → BlusysErr → Call
  interrupt_disabled callback_removed : Call

abbrev pub Trace : Type 0
Trace = List Call

pub record Env : Type 0 where
  pub alloc : Bool
  pub init : BlusysErr
  pub create : Trace → EspErr
  pub gpio : GpioOp → Trace → BlusysErr

abbrev pub created : EspErr → Bool
created EspErr.esp_ok = true
created _ = false

abbrev pub timer_error : EspErr → BlusysErr
timer_error e = translate_esp_err_in err_domain_driver_button e

-- What a GPIO call that fails leaves to undo: the interrupt, if the callback cannot be set.
unfoldable pub undo_gpio : GpioOp → Trace → Trace
undo_gpio gpio_set_callback t = interrupt_disabled ∷ t
undo_gpio _ t = t

-- The handle as the assignments after `calloc`, and the creation of the timers, leave it.
unfoldable pub new_button : Config → Button
new_button c = record {
  active_low = c.active_low;
  debounce_ms = debounce_or_default c.debounce_ms;
  long_press_timer = ltb 0 c.long_press_ms;
  callback = none;
  callback_active = 0;
  pressed = false;
  closing = false;
  debounce_armed = false;
  long_press_armed = false;
}

-- `esp_timer_delete` of the long-press timer, if there is one.
abbrev pub delete_long_press : Bool → Trace → Trace
delete_long_press exists t = if exists then timer_delete ∷ t else t

abbrev pub stop_long_press : Bool → Trace → Trace
stop_long_press exists t = if exists then timer_stop ∷ t else t

module _ (env : Env) where
  unfoldable pub setup_gpio : List GpioOp → Trace → BlusysErr × Trace
  setup_gpio [] t = (ok, t)
  setup_gpio (op ∷ ops) t =
      let err = env.gpio op t in
      let rest = setup_gpio ops (gpio_call op err ∷ t) in
      if err == ok then rest else (err, undo_gpio op (gpio_call op err ∷ t))

  -- From the first call of the GPIO module on, with `fail_gpio`.
  unfoldable pub open_pin : Config → Trace → Returned Button × Trace
  open_pin c t =
      let (err, t1) =
        setup_gpio
          (gpio_reset ∷ gpio_set_input ∷ gpio_set_pull_mode ∷ gpio_set_interrupt ∷ gpio_set_callback
            ∷ [])
          t in
      if err == ok then (done (new_button c), t1) else (
        fail err,
        freed ∷ lock_deinit ∷ timer_delete ∷ delete_long_press (ltb 0 c.long_press_ms) t1,
      )

  -- The long-press timer, and what follows.
  unfoldable pub open_long_press : Config → Trace → Returned Button × Trace
  open_long_press c t =
      let e = env.create t in
      let t1 = timer_create e ∷ t in
      let without = open_pin c t in
      let with_timer = open_pin c t1 in
      if ltb 0 c.long_press_ms
      then (if created e
          then with_timer
          else (fail (timer_error e), freed ∷ lock_deinit ∷ timer_delete ∷ t1))
      else without

  -- The debounce timer, and what follows.
  unfoldable pub open_timers : Config → Trace → Returned Button × Trace
  open_timers c t =
      let e = env.create t in
      let t1 = timer_create e ∷ t in
      let rest = open_long_press c t1 in
      if created e then rest else (fail (timer_error e), freed ∷ lock_deinit ∷ t1)

  unfoldable pub open_valid : Config → Trace → Returned Button × Trace
  open_valid c t =
      let t1 = lock_init env.init ∷ allocated ∷ t in
      let rest = open_timers c t1 in
      if not env.alloc
      then (fail err_no_mem, t)
      else if env.init == ok
      then rest
      else (fail env.init, freed ∷ t1)

  -- `blusys_button_open`: a config that is NULL is none.
  unfoldable pub button_open : Option Config → Bool → Trace → Returned Button × Trace
  button_open none has_out t = (fail err_invalid_arg, t)
  button_open (some c) has_out t =
      let opened = open_valid c t in if has_out then opened else (fail err_invalid_arg, t)

-- `blusys_button_close`, once no callback runs: the result, and the calls.
unfoldable pub button_close : Option Button → Trace → BlusysErr × Trace
button_close none t = (err_invalid_arg, t)
button_close (some btn) t = (
  ok,
  freed
      ∷ lock_deinit
      ∷ delete_long_press btn.long_press_timer
          (timer_delete ∷ stop_long_press btn.long_press_timer (timer_stop ∷ callback_removed ∷ t)),
)
