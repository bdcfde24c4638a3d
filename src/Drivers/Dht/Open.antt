-- ===== src/Drivers/Dht/Open.antt =====
-- Opening and closing a sensor of components/blusys/src/drivers/dht.c. What the heap, the lock, the
-- semaphore and the RMT driver return is decided by an environment; the calls are recorded, newest
-- first.
use blusys.Base.{Bool, true, false, not, Option, none, some, List, [], ◌∷◌, ◌==◌, if◌then◌else◌}
use blusys.Base.Int.{pos}
use blusys.Hal.Error.{
  BlusysErr, ok, err_invalid_arg, err_no_mem, EspErr, translate_esp_err, blusys_err, err_code,
  err_domain_driver_dht,
}
use blusys.Hal.Result.{Returned, done, fail}
use blusys.Drivers.Dht.Read.{DhtType, Dht}

-- `counted` is `blusys_counter_inc` on the driver's domain and `logged` the call of `BLUSYS_LOG`,
-- which counts in the domain again.
pub data Call : Type 0 where
  counted logged : Call
  allocated freed buf_allocated buf_freed : Call
  lock_init lock_take : BlusysErr → Call
  lock_give lock_deinit : Call
  sem_created sem_given sem_taken sem_deleted : Call
  new_tx_channel : EspErr → Call
  new_copy_encoder : EspErr → Call
  new_rx_channel : EspErr → Call
  register_callbacks : EspErr → Call
  enable_tx enable_rx : EspErr → Call
  disable_tx disable_rx del_rx_channel del_encoder del_tx_channel : Call

abbrev pub Trace : Type 0
Trace = List Call

pub record Env : Type 0 where
  pub alloc : Bool
  pub alloc_buf : Bool
  pub init : BlusysErr
  pub sem : Bool
  pub tx_channel : EspErr
  pub encoder : EspErr
  pub rx_channel : EspErr
  pub callbacks : EspErr
  pub tx_enabled : EspErr
  pub rx_enabled : EspErr

abbrev pub is_made : EspErr → Bool
is_made EspErr.esp_ok = true
is_made _ = false

unfoldable pub dht_oom : Trace → BlusysErr × Trace
dht_oom t = (blusys_err err_domain_driver_dht (err_code err_no_mem), logged ∷ counted ∷ t)

-- The handle that opening gives.
abbrev pub new_dht : DhtType → Dht
new_dht kind = record {
  kind = kind;
  closing = false;
  rx_sym_buf = [];
  rx_sym_count = 0;
  waiting_task = none;
  last_read_us = 0;
  last_reading = record { temperature = pos 0; humidity = pos 0 };
  read_done = true;
}

-- The labels of the error paths, each with those behind it.
unfoldable pub fail_lock : Trace → Trace
fail_lock t = freed ∷ buf_freed ∷ lock_deinit ∷ sem_deleted ∷ t

unfoldable pub fail_tx_channel : Trace → Trace
fail_tx_channel t = fail_lock (del_tx_channel ∷ t)

unfoldable pub fail_tx_encoder : Trace → Trace
fail_tx_encoder t = fail_tx_channel (del_encoder ∷ t)

unfoldable pub fail_rx_channel : Trace → Trace
fail_rx_channel t = fail_tx_encoder (del_rx_channel ∷ t)

unfoldable pub fail_tx_enable : Trace → Trace
fail_tx_enable t = fail_rx_channel (disable_tx ∷ t)

-- From the channels on.
unfoldable pub open_channels : Env → DhtType → Trace → Returned Dht × Trace
open_channels env kind t =
    let t1 = new_tx_channel env.tx_channel ∷ t in
    let t2 = new_copy_encoder env.encoder ∷ t1 in
    let t3 = new_rx_channel env.rx_channel ∷ t2 in
    let t4 = register_callbacks env.callbacks ∷ t3 in
    let t5 = enable_tx env.tx_enabled ∷ t4 in
    let t6 = enable_rx env.rx_enabled ∷ t5 in
    if not (is_made env.tx_channel)
    then (fail (translate_esp_err env.tx_channel), fail_lock t1)
    else if not (is_made env.encoder)
    then (fail (translate_esp_err env.encoder), fail_tx_channel t2)
    else if not (is_made env.rx_channel)
    then (fail (translate_esp_err env.rx_channel), fail_tx_encoder t3)
    else if not (is_made env.callbacks)
    then (fail (translate_esp_err env.callbacks), fail_rx_channel t4)
    else if not (is_made env.tx_enabled)
    then (fail (translate_esp_err env.tx_enabled), fail_rx_channel t5)
    else if not (is_made env.rx_enabled)
    then (fail (translate_esp_err env.rx_enabled), fail_tx_enable t6)
    else (done (new_dht kind), t6)

-- From the heap on.
unfoldable pub open_dht : Env → DhtType → Trace → Returned Dht × Trace
open_dht env kind t =
    let (oom, t0) = dht_oom t in
    let (oom_buf, t1) = dht_oom (allocated ∷ t) in
    let t2 = lock_init env.init ∷ buf_allocated ∷ allocated ∷ t in
    if not env.alloc
    then (fail oom, t0)
    else if not env.alloc_buf
    then (fail oom_buf, freed ∷ t1)
    else if not (env.init == ok)
    then (fail env.init, freed ∷ buf_freed ∷ t2)
    else if not env.sem
    then (fail err_no_mem, freed ∷ buf_freed ∷ lock_deinit ∷ t2)
    else open_channels env kind (sem_given ∷ sem_created ∷ t2)

-- `blusys_dht_open`. A config says whether its pin can be an output, and the kind of sensor.
unfoldable pub dht_open : Env → Option (Bool × DhtType) → Bool → Trace → Returned Dht × Trace
dht_open env none has_out t = (fail err_invalid_arg, t)
dht_open env (some (output_pin, kind)) has_out t =
    if not has_out
    then (fail err_invalid_arg, t)
    else if not output_pin
    then (fail err_invalid_arg, t)
    else open_dht env kind t

-- `blusys_dht_close`, with the result of taking the lock, once no read runs.
unfoldable pub dht_close : BlusysErr → Option Dht → Trace → BlusysErr × Trace
dht_close lock_err none t = (err_invalid_arg, t)
dht_close lock_err (some d) t =
    if lock_err == ok
    then (
      ok,
      freed
          ∷ buf_freed
          ∷ lock_deinit
          ∷ sem_deleted
          ∷ sem_taken
          ∷ lock_give
          ∷ del_tx_channel
          ∷ del_encoder
          ∷ disable_tx
          ∷ del_rx_channel
          ∷ disable_rx
          ∷ lock_take lock_err
          ∷ t,
    )
    else (lock_err, lock_take lock_err ∷ t)
