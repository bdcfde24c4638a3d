-- ===== src/Drivers/Button/Tests.antt =====
-- The theorems about components/blusys/src/drivers/button.c at concrete inputs.
use blusys.Base.{◌≡◌, refl, true, false, none, some, List, [], ◌∷◌}
use blusys.Hal.Error.{ok, err_io, EspErr}
use blusys.Hal.Result.{fail}
use blusys.Hal.Lifecycle.{try_enter, leave}
use blusys.Drivers.Button.Defs.{
  press, release, long_press, Button, invoke_callback, arm_long_press, change_pressed,
  debounce_timer_cb, long_press_timer_cb, button_gpio_isr_cb,
}
use blusys.Drivers.Button.Open.{
  Config, Env, gpio_set_callback, open_valid, open_timers, open_long_press, open_pin, setup_gpio,
  new_button, button_close,
}
use blusys.Drivers.Button.Phases.{
  Firing, edge, debounce_fires, long_press_fires, fire, fires, up, Follows, InPhase,
}
use blusys.Drivers.Button.Order.{fires-Follows}
use blusys.Drivers.Button.Opened.{owned, button_open-button_close}

abbrev released : Button
released = record {
  active_low = true;
  debounce_ms = 50;
  long_press_timer = true;
  callback = some 5;
  callback_active = 0;
  pressed = false;
  closing = false;
  debounce_armed = false;
  long_press_armed = false;
}

-- A press that bounces, is held, and ends.
abbrev held_press : List Firing
held_press =
    edge
    ∷ edge
    ∷ debounce_fires (some false)
    ∷ long_press_fires
    ∷ long_press_fires
    ∷ edge
    ∷ debounce_fires none
    ∷ edge
    ∷ debounce_fires (some true)
    ∷ []

held_press-events : (fires held_press released).1 ≡ (5, press) ∷ (5, long_press) ∷ (5, release) ∷ []
unfolding fires fire button_gpio_isr_cb debounce_timer_cb change_pressed arm_long_press
    long_press_timer_cb invoke_callback try_enter leave
held_press-events = refl

fires-Follows_example : Follows 5 up (fires held_press released)
unfolding InPhase
fires-Follows_example =
    fires-Follows held_press 5 up released
      (record { has_callback = refl; is_open = refl; no_timer = λ e. refl }) (refl, refl)

abbrev good : Env
good = record { alloc = true; init = ok; create = λ t. EspErr.esp_ok; gpio = λ op t. ok }

-- The callback cannot be set.
abbrev no_callback : Env
no_callback = record good { gpio = λ op t. elim op [ gpio_set_callback ↦ err_io | _ ↦ ok ] }

abbrev config : Config
config = record { active_low = true; debounce_ms = 0; long_press_ms = 800 }

open_valid-no_callback : (open_valid no_callback config []).0 ≡ fail err_io
unfolding open_valid open_timers open_long_press open_pin setup_gpio
open_valid-no_callback = refl

button_open-button_close_example :
    owned (button_close (some (new_button config)) (open_valid good config []).1).1 ≡ owned []
unfolding open_valid open_timers open_long_press open_pin setup_gpio
button_open-button_close_example =
    button_open-button_close good config [] (open_valid good config []).1 (new_button config) refl
