-- ===== src/Drivers/Dht/Read.antt =====
-- Reading a sensor with components/blusys/src/drivers/dht.c: what the two halves of
-- `blusys_dht_read` do before and after they wait, and what the interrupt does in between.
use blusys.Base.{
  ℕ, ◌+◌, ◌-◌, ◌*◌, ◌%◌, ◌^◌, bit_and, Bool, true, false, not, ◌&&◌, Option, none, some, List, [],
  ltb, ◌==◌, if◌then◌else◌, get_or,
}
use blusys.Base.Int.{ℤ, pos, ◌-ℤ◌}
use blusys.Hal.Error.{BlusysErr, ok, err_invalid_state, err_timeout, EspErr, translate_esp_err}
use blusys.Drivers.Dht.Defs.{Symbol, dht_decode}

-- `blusys_dht_type_t`
pub data DhtType : Type 0 where
  dht11 : DhtType
  dht22 : DhtType

-- `blusys_dht_reading_t`, in tenths: the source multiplies by 0.1 in floating point, and its
-- rounding is left out.
pub record Reading : Type 0 where
  pub temperature : ℤ
  pub humidity : ℤ

-- `((uint16_t)high << 8u) | low`, whose two parts do not overlap.
abbrev pub word : ℕ → ℕ → ℕ
word high low = high * 2 ^ 8 % 2 ^ 16 + low

unfoldable pub dht_convert : DhtType → List ℕ → Reading
dht_convert dht11 bytes = record {
  humidity = pos (get_or bytes 0 0 * 10 + get_or bytes 1 0);
  temperature = pos (get_or bytes 2 0 * 10 + get_or bytes 3 0);
}
dht_convert dht22 bytes =
    let raw_temp = word (get_or bytes 2 0) (get_or bytes 3 0) in
    let tenths = pos (bit_and raw_temp 0x7FFF) in
    record {
      humidity = pos (word (get_or bytes 0 0) (get_or bytes 1 0));
      temperature = if bit_and raw_temp 0x8000 == 0 then tenths else pos 0 -ℤ tenths;
    }

-- A handle. `read_done` is whether `read_done_sem` can be taken.
pub record Dht : Type 0 where
  pub kind : DhtType
  pub closing : Bool
  pub rx_sym_buf : List Symbol
  pub rx_sym_count : ℕ
  pub waiting_task : Option ℕ
  pub last_read_us : ℕ
  pub last_reading : Reading
  pub read_done : Bool

abbrev pub min_interval_us : ℕ
min_interval_us = 2000000

-- What the lock, the receiver and the transmitter return.
pub record Env : Type 0 where
  pub lock_err : BlusysErr
  pub receive : EspErr
  pub transmit : EspErr

abbrev pub is_ok : EspErr → Bool
is_ok EspErr.esp_ok = true
is_ok _ = false

-- The first half of a read returns, or waits for the interrupt.
pub data Begun : Type 0 where
  returned : BlusysErr → Option Reading → Begun
  waits : Begun

abbrev pub is_waiting : Option ℕ → Bool
is_waiting none = false
is_waiting (some task) = true

-- From the check of the waiting task on.
unfoldable pub start_read : Env → ℕ → Dht → Begun × Dht
start_read env task d =
    if is_waiting d.waiting_task
    then (returned err_invalid_state none, d)
    else if not (is_ok env.receive)
    then (
      returned (translate_esp_err env.receive) none,
      record d { rx_sym_count = 0; waiting_task = none },
    )
    else if not (is_ok env.transmit)
    then (
      returned (translate_esp_err env.transmit) none,
      record d { rx_sym_count = 0; waiting_task = none },
    )
    else (waits, record d { rx_sym_count = 0; waiting_task = some task; read_done = false })

-- Whether the last reading is too new for another one.
abbrev pub is_fresh : ℕ → Dht → Bool
is_fresh now_us d = ltb 0 d.last_read_us && ltb (now_us - d.last_read_us) min_interval_us

-- Up to the wait. The mutex is taken and given in it; `now_us` is the time since the boot.
unfoldable pub read_begin : Env → ℕ → ℕ → Dht → Begun × Dht
read_begin env task now_us d =
    if not (env.lock_err == ok)
    then (returned env.lock_err none, d)
    else if d.closing
    then (returned err_invalid_state none, d)
    else if is_fresh now_us d
    then (returned ok (some d.last_reading), d)
    else start_read env task d

-- `dht_rx_done_cb`, with the symbols that the receiver has stored, and the task that it notifies.
unfoldable pub dht_rx_done_cb : List Symbol → ℕ → Dht → Option ℕ × Dht
dht_rx_done_cb symbols num_symbols d = (
  d.waiting_task,
  record d { rx_sym_buf = symbols; rx_sym_count = num_symbols; waiting_task = none },
)

-- After a wait that no notification has ended. The calls that disable and enable the receiver, here
-- and where a transmission cannot start, leave the fields of the handle as they are, and their results
-- are not read.
unfoldable pub read_timeout : Dht → BlusysErr × Dht
read_timeout d = (err_timeout, record d { waiting_task = none; read_done = true })

-- After a notification, with the time at the end.
unfoldable pub read_end : ℕ → Dht → (BlusysErr × Option Reading) × Dht
read_end now_us d =
    let (err, bytes) = dht_decode d.rx_sym_buf d.rx_sym_count [] in
    let reading = dht_convert d.kind bytes in
    if err == ok
    then (
      (ok, some reading),
      record d { last_reading = reading; last_read_us = now_us; read_done = true },
    )
    else ((err, none), record d { read_done = true })

-- Until the lock is given, and from the wait for a read on: none waits still.
unfoldable pub close_begin : BlusysErr → Dht → BlusysErr × Dht
close_begin lock_err d = if lock_err == ok then (ok, record d { closing = true }) else (lock_err, d)

unfoldable pub close_end : Dht → Option Dht
close_end d = if d.read_done then some (record d { read_done = false }) else none
