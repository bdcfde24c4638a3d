-- ===== src/Drivers/Button/Defs.antt =====
-- The running button of components/blusys/src/drivers/button.c: the callbacks of its two timers and
-- of its interrupt, and the operations of a client.
use blusys.Base.{
  ℕ, Bool, true, false, not, ◌||◌, Option, none, some, List, [], ◌∷◌, ◌==◌, if◌then◌else◌,
}
use blusys.Base.Bits.{xor}
use blusys.Hal.Error.{BlusysErr, ok, err_invalid_arg, err_invalid_state}
use blusys.Hal.Result.{Returned, done, fail}
use blusys.Hal.Lifecycle.{try_enter, leave}

-- `blusys_button_event_t`; `other_event` is a value that is none of the enumerators.
pub data ButtonEvent : Type 0 where
  press release long_press other_event : ButtonEvent

-- `struct blusys_button` less the pin, the locks and `long_press_ms`. A callback with its context
-- is a number. Of the two timers, `long_press_timer` says whether it exists, and the last two fields
-- whether the SDK will run them.
pub record Button : Type 0 where
  pub active_low : Bool
  pub debounce_ms : ℕ
  pub long_press_timer : Bool
  pub callback : Option ℕ
  pub callback_active : ℕ
  pub pressed : Bool
  pub closing : Bool
  pub debounce_armed : Bool
  pub long_press_armed : Bool

-- `invoke_callback`: the callback runs between the two critical sections. The result lists the
-- callback that has run, with its event.
unfoldable pub invoke_callback : ButtonEvent → Button → Button × List (ℕ × ButtonEvent)
invoke_callback event btn = elim (btn.callback) as (λ x. Button × List (ℕ × ButtonEvent)) [
  | none ↦ (btn, [])
  | some cb ↦
      elim (try_enter (btn.callback_active) (btn.closing))
        as (λ x. Button × List (ℕ × ButtonEvent)) [
          | none ↦ (btn, [])
          | some active ↦ (record btn { callback_active = leave active }, (cb, event) ∷ [])
        ]
]

-- `active_low ? !raw_level : raw_level`
abbrev pub logical_level : Bool → Bool → Bool
logical_level active_low raw_level = if active_low then not raw_level else raw_level

-- Stopping and starting the long-press timer, if there is one.
unfoldable pub arm_long_press : Bool → Button → Button
arm_long_press armed btn =
    if btn.long_press_timer then record btn { long_press_armed = armed } else btn

-- From the assignment of `pressed` on.
unfoldable pub change_pressed : Bool → Button → Button × List (ℕ × ButtonEvent)
change_pressed true btn =
    invoke_callback press (arm_long_press true (record btn { pressed = true }))
change_pressed false btn =
    invoke_callback release (arm_long_press false (record btn { pressed = false }))

-- `debounce_timer_cb`: the level is none if it cannot be read.
unfoldable pub debounce_timer_cb : Option Bool → Button → Button × List (ℕ × ButtonEvent)
debounce_timer_cb none btn = (btn, [])
debounce_timer_cb (some raw_level) btn =
    let new_pressed = logical_level btn.active_low raw_level in
    let changed = change_pressed new_pressed btn in
    if btn.closing then (btn, []) else if xor new_pressed btn.pressed then changed else (btn, [])

unfoldable pub long_press_timer_cb : Button → Button × List (ℕ × ButtonEvent)
long_press_timer_cb btn =
    let invoked = invoke_callback long_press btn in
    if btn.closing || not btn.pressed then (btn, []) else invoked

-- `button_gpio_isr_cb` restarts the debounce timer.
unfoldable pub button_gpio_isr_cb : Button → Button
button_gpio_isr_cb btn = record btn { debounce_armed = true }

-- `blusys_button_set_callback`, given the result of taking the lock; the handle is none for NULL. It
-- returns once no callback runs.
unfoldable pub button_set_callback :
    BlusysErr → Option ℕ → Option Button → BlusysErr × Option Button
button_set_callback lock_err callback none = (err_invalid_arg, none)
button_set_callback lock_err callback (some btn) =
    if lock_err == ok
    then (if btn.closing
        then (err_invalid_state, some btn)
        else (ok, some (record btn { callback = callback })))
    else (lock_err, some btn)

-- `blusys_button_read`, given what reading the pin returns.
unfoldable pub button_read : Returned Bool → Option Button → Bool → Returned Bool
button_read level none has_out = fail err_invalid_arg
button_read (fail e) (some btn) has_out = if has_out then fail e else fail err_invalid_arg
button_read (done raw_level) (some btn) has_out =
    if has_out then done (logical_level btn.active_low raw_level) else fail err_invalid_arg
