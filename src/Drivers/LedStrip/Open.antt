-- ===== src/Drivers/LedStrip/Open.antt =====
-- Opening and closing a strip of components/blusys/src/drivers/led_strip.c. What the heap, the lock
-- and the RMT driver return is decided by an environment; the calls are recorded, newest first.
use blusys.Base.{
  ℕ, zero, suc, ◌*◌, ◌%◌, ◌^◌, Bool, true, false, not, Option, none, some, List, [], ◌∷◌, ◌==◌,
  if◌then◌else◌, replicate,
}
use blusys.Hal.Error.{BlusysErr, ok, err_invalid_arg, err_no_mem, EspErr, translate_esp_err}
use blusys.Hal.Result.{Returned, done, fail}
use blusys.Drivers.LedStrip.Defs.{LedStripType, Params, params_of, LedStrip}

-- The handle, the buffer of so many bytes, and what the RMT driver makes.
pub data Call : Type 0 where
  allocated freed : Call
  buf_allocated : ℕ → Call
  buf_freed : Call
  lock_init lock_take : BlusysErr → Call
  lock_give lock_deinit : Call
  new_tx_channel : EspErr → Call
  new_bytes_encoder : Params → EspErr → Call
  new_copy_encoder : EspErr → Call
  enable : EspErr → Call
  disable del_copy_encoder del_bytes_encoder del_channel : Call

abbrev pub Trace : Type 0
Trace = List Call

pub record Env : Type 0 where
  pub alloc : Bool
  pub alloc_buf : Bool
  pub init : BlusysErr
  pub channel : EspErr
  pub bytes_encoder : EspErr
  pub copy_encoder : EspErr
  pub enabled : EspErr

abbrev pub is_made : EspErr → Bool
is_made EspErr.esp_ok = true
is_made _ = false

-- `blusys_led_strip_config_t`, its type the number that the C enumeration stands for, and whether
-- the pin can be an output, as the SDK says.
pub record Config : Type 0 where
  pub output_pin : Bool
  pub led_count : ℕ
  pub chip : ℕ

abbrev pub type_of_number : ℕ → Option LedStripType
type_of_number zero = some LedStripType.ws2812b
type_of_number (suc zero) = some LedStripType.sk6812_rgb
type_of_number (suc (suc zero)) = some LedStripType.sk6812_rgbw
type_of_number (suc (suc (suc zero))) = some LedStripType.ws2811
type_of_number (suc (suc (suc (suc zero)))) = some LedStripType.apa106
type_of_number (suc (suc (suc (suc (suc n))))) = none

-- The size of the buffer: size_t has 32 bits.
abbrev pub pixel_buf_size : Params → ℕ → ℕ
pixel_buf_size params led_count = led_count * params.bytes_per_pixel % 2 ^ 32

-- The handle that opening gives.
unfoldable pub new_strip : LedStripType → ℕ → LedStrip
new_strip type led_count = record {
  params = params_of type;
  led_count = led_count;
  buf = replicate (pixel_buf_size (params_of type) led_count) 0;
  stray_writes = [];
}

-- The labels of the error paths, each with those behind it.
unfoldable pub fail_buf : Trace → Trace
fail_buf t = freed ∷ buf_freed ∷ t

unfoldable pub fail_lock : Trace → Trace
fail_lock t = fail_buf (lock_deinit ∷ t)

unfoldable pub fail_channel : Trace → Trace
fail_channel t = fail_lock (del_channel ∷ t)

unfoldable pub fail_bytes_enc : Trace → Trace
fail_bytes_enc t = fail_channel (del_bytes_encoder ∷ t)

unfoldable pub fail_copy_enc : Trace → Trace
fail_copy_enc t = fail_bytes_enc (del_copy_encoder ∷ t)

-- From the lock on.
unfoldable pub open_channel : Env → LedStripType → ℕ → Trace → Returned LedStrip × Trace
open_channel env type led_count t =
    let t1 = lock_init env.init ∷ t in
    let t2 = new_tx_channel env.channel ∷ t1 in
    let t3 = new_bytes_encoder (params_of type) env.bytes_encoder ∷ t2 in
    let t4 = new_copy_encoder env.copy_encoder ∷ t3 in
    let t5 = enable env.enabled ∷ t4 in
    if not (env.init == ok)
    then (fail env.init, fail_buf t1)
    else if not (is_made env.channel)
    then (fail (translate_esp_err env.channel), fail_lock t2)
    else if not (is_made env.bytes_encoder)
    then (fail (translate_esp_err env.bytes_encoder), fail_channel t3)
    else if not (is_made env.copy_encoder)
    then (fail (translate_esp_err env.copy_encoder), fail_bytes_enc t4)
    else if not (is_made env.enabled)
    then (fail (translate_esp_err env.enabled), fail_copy_enc t5)
    else (done (new_strip type led_count), t5)

unfoldable pub open_type : Env → LedStripType → ℕ → Trace → Returned LedStrip × Trace
open_type env type led_count t =
    let t2 = buf_allocated (pixel_buf_size (params_of type) led_count) ∷ allocated ∷ t in
    if not env.alloc
    then (fail err_no_mem, t)
    else if not env.alloc_buf
    then (fail err_no_mem, freed ∷ allocated ∷ t)
    else open_channel env type led_count t2

unfoldable pub open_strip : Env → Config → Trace → Returned LedStrip × Trace
open_strip env config t =
    if config.led_count == 0
    then (fail err_invalid_arg, t)
    else if not config.output_pin
    then (fail err_invalid_arg, t)
    else elim (type_of_number config.chip) [
      | none ↦ (fail err_invalid_arg, t)
      | some type ↦ open_type env type config.led_count t
    ]

-- `blusys_led_strip_open`
unfoldable pub led_strip_open : Env → Option Config → Bool → Trace → Returned LedStrip × Trace
led_strip_open env none has_out t = (fail err_invalid_arg, t)
led_strip_open env (some config) has_out t =
    if has_out then open_strip env config t else (fail err_invalid_arg, t)

-- `blusys_led_strip_close`, with the result of taking the lock.
unfoldable pub led_strip_close : BlusysErr → Option LedStrip → Trace → BlusysErr × Trace
led_strip_close lock_err none t = (err_invalid_arg, t)
led_strip_close lock_err (some strip) t =
    if lock_err == ok
    then (
      ok,
      freed
          ∷ buf_freed
          ∷ lock_deinit
          ∷ lock_give
          ∷ del_channel
          ∷ del_bytes_encoder
          ∷ del_copy_encoder
          ∷ disable
          ∷ lock_take lock_err
          ∷ t,
    )
    else (lock_err, lock_take lock_err ∷ t)
