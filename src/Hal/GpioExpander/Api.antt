-- ===== src/Hal/GpioExpander/Api.antt =====
-- The operations of components/blusys/src/hal/gpio_expander.c as a client calls them: the handle is
-- none for NULL, and an output pointer may be NULL.
use blusys.Base.{ℕ, Bool, Option, none, some, if◌then◌else◌}
use blusys.Hal.Error.{BlusysErr, err_invalid_arg}
use blusys.Hal.Result.{Returned, fail}
use blusys.Hal.GpioExpander.Defs.{Direction, Env, State}
use blusys.Hal.GpioExpander.Pins.{set_direction, write_pin, write_port, read_pin, read_port}

unfoldable pub on_handle : {R : Type 0} → R → (State → R × State) → Option State → R × Option State
on_handle refused operation none = (refused, none)
on_handle refused operation (some s) = let (r, s') = operation s in (r, some s')

module _ (env : Env) where
  unfoldable pub gpio_expander_set_direction :
      Option State → ℕ → Direction → BlusysErr × Option State
  gpio_expander_set_direction h pin dir = on_handle err_invalid_arg (set_direction env pin dir) h

  unfoldable pub gpio_expander_write_pin : Option State → ℕ → Bool → BlusysErr × Option State
  gpio_expander_write_pin h pin level = on_handle err_invalid_arg (write_pin env pin level) h

  unfoldable pub gpio_expander_write_port : Option State → ℕ → BlusysErr × Option State
  gpio_expander_write_port h values = on_handle err_invalid_arg (write_port env values) h

  unfoldable pub gpio_expander_read_pin : Option State → ℕ → Bool → Returned Bool × Option State
  gpio_expander_read_pin h pin has_out =
      let r = on_handle (fail err_invalid_arg) (read_pin env pin) h in
      if has_out then r else (fail err_invalid_arg, h)

  unfoldable pub gpio_expander_read_port : Option State → Bool → Returned ℕ × Option State
  gpio_expander_read_port h has_out =
      let r = on_handle (fail err_invalid_arg) (read_port env) h in
      if has_out then r else (fail err_invalid_arg, h)
