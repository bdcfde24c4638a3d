-- ===== src/Drivers/LedStrip/Calls.antt =====
-- What components/blusys/src/drivers/led_strip.c sends: the calls of the lock and of the RMT
-- driver, newest first.
use blusys.Base.{
  ℕ, zero, suc, ◌*◌, ◌%◌, ◌^◌, Bool, true, false, not, Option, none, some, List, ◌∷◌, ◌++◌, ◌==◌,
  if◌then◌else◌, replicate, take, drop,
}
use blusys.Base.Int.{ℤ, pos, negsuc}
use blusys.Hal.Error.{BlusysErr, ok, err_invalid_arg, EspErr, translate_esp_err}
use blusys.Drivers.LedStrip.Defs.{LedStrip}

-- The frame's bytes go through the encoder of bytes, the reset symbol, by its duration, through the
-- other one. A wait is bounded by milliseconds, or not at all.
pub data Call : Type 0 where
  lock_take : BlusysErr → Call
  lock_give : Call
  transmit_bytes : List ℕ → EspErr → Call
  transmit_reset : ℕ → EspErr → Call
  wait_all_done : Option ℕ → EspErr → Call

-- What the calls of one refresh return.
pub record Env : Type 0 where
  pub lock_err : BlusysErr
  pub send_frame : EspErr
  pub frame_done : EspErr
  pub send_reset : EspErr
  pub reset_done : EspErr

abbrev pub is_ok : EspErr → Bool
is_ok EspErr.esp_ok = true
is_ok _ = false

-- `blusys_timeout_ms_to_ticks` of a valid time, before the SDK counts it in ticks; none is
-- portMAX_DELAY. A time below BLUSYS_TIMEOUT_FOREVER, -1, is not valid.
abbrev pub valid_timeout : ℤ → Option (Option ℕ)
valid_timeout (pos ms) = some (some ms)
valid_timeout (negsuc zero) = some none
valid_timeout (negsuc (suc n)) = none

-- The first `size` bytes of the buffer, `size` a product of size_t, which has 32 bits.
abbrev pub frame_bytes : LedStrip → List ℕ
frame_bytes strip = take (strip.led_count * strip.params.bytes_per_pixel % 2 ^ 32) strip.buf

-- What is sent under the lock.
unfoldable pub send : Env → LedStrip → Option ℕ → List Call → BlusysErr × List Call
send env strip wait t =
    let t1 = transmit_bytes (frame_bytes strip) env.send_frame ∷ t in
    let t2 = wait_all_done wait env.frame_done ∷ t1 in
    let t3 = transmit_reset strip.params.reset env.send_reset ∷ t2 in
    if not (is_ok env.send_frame)
    then (translate_esp_err env.send_frame, t1)
    else if not (is_ok env.frame_done)
    then (translate_esp_err env.frame_done, t2)
    else if not (is_ok env.send_reset)
    then (translate_esp_err env.send_reset, t3)
    else (translate_esp_err env.reset_done, wait_all_done wait env.reset_done ∷ t3)

unfoldable pub locked_send : Env → LedStrip → Option ℕ → List Call → BlusysErr × List Call
locked_send env strip wait t =
    let (err, sent) = send env strip wait (lock_take env.lock_err ∷ t) in
    if env.lock_err == ok
    then (err, lock_give ∷ sent)
    else (env.lock_err, lock_take env.lock_err ∷ t)

-- `blusys_led_strip_refresh`
unfoldable pub refresh : Env → Option LedStrip → ℤ → List Call → BlusysErr × List Call
refresh env none timeout_ms t = (err_invalid_arg, t)
refresh env (some strip) timeout_ms t = elim (valid_timeout timeout_ms) [
  | none ↦ (err_invalid_arg, t)
  | some wait ↦ locked_send env strip wait t
]

-- The memset of `blusys_led_strip_clear`, on the same number of bytes.
unfoldable pub zero_buf : LedStrip → LedStrip
zero_buf strip =
    let size = strip.led_count * strip.params.bytes_per_pixel % 2 ^ 32 in
    record strip { buf = replicate size 0 ++ drop size strip.buf }

-- `blusys_led_strip_clear`
unfoldable pub clear :
    Env → Option LedStrip → ℤ → List Call → BlusysErr × Option LedStrip × List Call
clear env none timeout_ms t = (err_invalid_arg, none, t)
clear env (some strip) timeout_ms t =
    let (err, sent) = refresh env (some (zero_buf strip)) timeout_ms t in
    (err, some (zero_buf strip), sent)
