-- ===== src/Drivers/Buzzer/Open.antt =====
-- Opening and closing a buzzer of components/blusys/src/drivers/buzzer.c. What the heap, the lock,
-- the PWM module and the timer return is decided by an environment; the calls are recorded, newest
-- first.
use blusys.Base.{Bool, true, false, not, Option, none, some, List, ◌∷◌, ◌==◌, if◌then◌else◌}
use blusys.Hal.Error.{BlusysErr, ok, err_invalid_arg, err_no_mem, EspErr, translate_esp_err}
use blusys.Hal.Result.{Returned, done, fail}
use blusys.Drivers.Buzzer.Defs.{Buzzer}

pub data Call : Type 0 where
  allocated freed lock_deinit : Call
  lock_init pwm_open : BlusysErr → Call
  timer_create : EspErr → Call
  pwm_stop pwm_close timer_stop timer_delete : Call

abbrev pub Trace : Type 0
Trace = List Call

pub record Env : Type 0 where
  pub alloc : Bool
  pub init : BlusysErr
  pub open_pwm : BlusysErr
  pub create : EspErr

abbrev pub is_created : EspErr → Bool
is_created EspErr.esp_ok = true
is_created _ = false

-- The handle that opening gives.
abbrev pub new_buzzer : Buzzer
new_buzzer = record {
  callback = none;
  callback_active = 0;
  playing = false;
  closing = false;
  seq_notes = none;
  seq_count = 0;
  seq_index = 0;
  timer_armed = false;
}

-- `blusys_buzzer_open`; a config that is NULL, or no place for the handle, is refused.
unfoldable pub buzzer_open : Env → Bool → Bool → Trace → Returned Buzzer × Trace
buzzer_open env has_config has_out t =
    let t1 = lock_init env.init ∷ allocated ∷ t in
    let t2 = pwm_open env.open_pwm ∷ t1 in
    let t3 = timer_create env.create ∷ t2 in
    if not has_config
    then (fail err_invalid_arg, t)
    else if not has_out
    then (fail err_invalid_arg, t)
    else if not env.alloc
    then (fail err_no_mem, t)
    else if not (env.init == ok)
    then (fail env.init, freed ∷ t1)
    else if not (env.open_pwm == ok)
    then (fail env.open_pwm, freed ∷ lock_deinit ∷ t2)
    else if is_created env.create
    then (done new_buzzer, t3)
    else (fail (translate_esp_err env.create), freed ∷ lock_deinit ∷ pwm_close ∷ t3)

-- `blusys_buzzer_close`, once no callback runs.
unfoldable pub buzzer_close : Option Buzzer → Trace → BlusysErr × Trace
buzzer_close none t = (err_invalid_arg, t)
buzzer_close (some bz) t =
    (ok, freed ∷ lock_deinit ∷ timer_delete ∷ pwm_close ∷ pwm_stop ∷ timer_stop ∷ t)
