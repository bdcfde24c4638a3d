-- ===== src/Services/Wifi/Defs.antt =====
-- The handle of components/blusys/src/services/connectivity/wifi.c.
use blusys.Base.{ℕ, zero, suc, Bool, true, false, not, ◌&&◌, Option, List, ltb}
use blusys.Base.Int.{ℤ, pos, negsuc}
use blusys.Services.Wifi.Reason.{WifiReason, DisconnectReason}

-- Where the reconnect task is: it waits to be notified; it delays; it has counted a retry and told the
-- client; it has told the client that it connects; it calls `esp_wifi_connect`; it has exited.
pub data Worker : Type 0 where
  waiting delaying retrying connecting calling exited : Worker

-- What critical sections do to the count of retries, newest first.
pub data Mark : Type 0 where
  retried cleared : Mark

-- `struct blusys_wifi` less the handles of the SDK, the lock, the texts and the callback. The bits of the event group are
-- `connected_bit`, `fail_bit`, `done_bit` and `exited_bit`; `notified` says whether a notification waits for the
-- reconnect task. `retry_count` is an int, which the source does not keep from overflowing; here it is a
-- natural number. No raw reason stands for 0.
pub record Wifi : Type 0 where
  pub connected : Bool
  pub closing : Bool
  pub manual_disconnect : Bool
  pub ever_connected : Bool
  pub connect_in_progress : Bool
  pub connect_waiting : Bool
  pub auto_reconnect : Bool
  pub reconnect_delay_ms : ℤ
  pub max_retries : ℤ
  pub retry_count : ℕ
  pub last_disconnect_reason : DisconnectReason
  pub last_disconnect_reason_raw : Option WifiReason
  pub connected_bit : Bool
  pub fail_bit : Bool
  pub done_bit : Bool
  pub exited_bit : Bool
  pub notified : Bool
  pub worker : Worker
  pub marks : List Mark

-- `max_retries == 0`, and `(max_retries > 0) && (retry_count >= max_retries)`.
abbrev pub retries_left : ℤ → ℕ → Bool
retries_left (pos zero) retry_count = false
retries_left (pos (suc n)) retry_count = ltb retry_count (suc n)
retries_left (negsuc n) retry_count = true

unfoldable pub retry_allowed : Wifi → Bool
retry_allowed w =
    w.auto_reconnect
    && not w.connect_in_progress
    && not w.closing
    && not w.manual_disconnect
    && w.ever_connected
    && retries_left w.max_retries w.retry_count

-- `finish_connect_wait`
unfoldable pub finish_connect_wait : Wifi → Wifi
finish_connect_wait w = record w { connect_waiting = false; done_bit = true }
