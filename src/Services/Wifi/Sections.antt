-- ===== src/Services/Wifi/Sections.antt =====
-- The critical sections of components/blusys/src/services/connectivity/wifi.c: of the reconnect
-- task, of the event handler, and of the client. Each is given the result of taking the lock, and
-- what the SDK returns in it.
use blusys.Base.{
  ◌+◌, Bool, true, false, not, ◌&&◌, ◌||◌, Option, none, some, ◌∷◌, ◌==◌, if◌then◌else◌,
}
use blusys.Hal.Error.{
  BlusysErr, ok, err_invalid_state, err_busy, err_io, err_timeout, EspErr, translate_esp_err,
}
use blusys.Services.Wifi.Reason.{
  WifiReason, DisconnectReason, unknown, user_requested, map_disconnect_reason,
}
use blusys.Services.Wifi.Defs.{
  Worker, waiting, delaying, retrying, connecting, calling, exited, retried, cleared, Wifi,
  retry_allowed, finish_connect_wait,
}

abbrev pub is_ok : EspErr → Bool
is_ok EspErr.esp_ok = true
is_ok _ = false

-- `reconnect_cancelled`
abbrev pub is_cancelled : Wifi → Bool
is_cancelled w = w.closing || w.manual_disconnect || not w.connect_in_progress

-- The section that counts a retry.
unfoldable pub count_retry : Wifi → Wifi
count_retry w = record w {
  retry_count = w.retry_count + 1;
  connect_in_progress = true;
  connected_bit = false;
  fail_bit = false;
  worker = retrying;
  marks = retried ∷ w.marks;
}

-- The next step of `reconnect_task_main`, up to where it gives the lock or waits.
unfoldable pub reconnect_step : Worker → BlusysErr → EspErr → Wifi → Wifi
reconnect_step waiting lock_err esp_err w =
    let taken = record w { notified = false } in
    if not w.notified
    then w
    else if w.closing
    then record taken { worker = exited; exited_bit = true }
    else if retry_allowed w
    then record taken { worker = delaying }
    else taken
reconnect_step delaying lock_err esp_err w =
    if lock_err == ok
    then (if w.closing || not (retry_allowed w)
        then record w { worker = waiting }
        else count_retry w)
    else record w { worker = waiting }
reconnect_step retrying lock_err esp_err w =
    if lock_err == ok
    then record w { worker = if is_cancelled w then waiting else connecting }
    else record w { worker = waiting }
reconnect_step connecting lock_err esp_err w =
    if lock_err == ok
    then record w { worker = if is_cancelled w then waiting else calling }
    else record w { worker = waiting }
reconnect_step calling lock_err esp_err w =
    if is_ok esp_err
    then record w { worker = waiting }
    else if lock_err == ok
    then record w { worker = waiting; connect_in_progress = false }
    else record w { worker = waiting }
reconnect_step exited lock_err esp_err w = w

abbrev pub mapped : Option WifiReason → DisconnectReason
mapped none = unknown
mapped (some reason) = map_disconnect_reason reason

-- The section of `wifi_event_handler` at WIFI_EVENT_STA_DISCONNECTED, whether to retry, and the
-- reason that the client is told, none on a handle that is closing.
unfoldable pub on_disconnected :
    BlusysErr → Option WifiReason → Wifi → Wifi × Bool × Option DisconnectReason
on_disconnected lock_err disc w =
    let manual = w.manual_disconnect in
    let reason = if manual then user_requested else mapped disc in
    let w1 = record w {
      connected = false;
      connect_in_progress = false;
      manual_disconnect = false;
      last_disconnect_reason = reason;
      last_disconnect_reason_raw = if manual then none else disc;
    } in
    let failed = record w1 { fail_bit = true } in
    if lock_err == ok
    then (if w1.closing
        then (failed, false, none)
        else (failed, not manual && retry_allowed w1, some reason))
    else (record w { fail_bit = true }, false, some (mapped disc))

-- The section at IP_EVENT_STA_GOT_IP.
unfoldable pub on_got_ip : BlusysErr → Wifi → Wifi
on_got_ip lock_err w =
    if lock_err == ok
    then record w {
      connected = true;
      ever_connected = true;
      connect_in_progress = false;
      retry_count = 0;
      connected_bit = true;
      marks = cleared ∷ w.marks;
    }
    else record w { connected_bit = true }

-- The first section of `blusys_wifi_connect`.
unfoldable pub connect_begin : BlusysErr → Wifi → BlusysErr × Wifi
connect_begin lock_err w =
    let begun = record w {
      manual_disconnect = false;
      connect_in_progress = true;
      connect_waiting = true;
      done_bit = false;
      connected_bit = false;
      fail_bit = false;
    } in
    if lock_err == ok
    then (if w.closing
        then (err_invalid_state, w)
        else if w.connect_in_progress
        then (err_busy, w)
        else (ok, begun))
    else (lock_err, w)

-- The second section, after the client is told that it connects.
unfoldable pub connect_check : BlusysErr → Wifi → BlusysErr × Wifi
connect_check lock_err w =
    let given_up = finish_connect_wait (record w { connect_in_progress = false }) in
    if lock_err == ok
    then (if is_cancelled w then (err_invalid_state, given_up) else (ok, w))
    else (lock_err, given_up)

-- `esp_wifi_connect`
unfoldable pub connect_call : EspErr → Wifi → BlusysErr × Wifi
connect_call esp_err w =
    if is_ok esp_err
    then (ok, w)
    else (translate_esp_err esp_err, finish_connect_wait (record w { connect_in_progress = false }))

-- The bits that the wait returns.
unfoldable pub connect_end : Wifi → BlusysErr × Wifi
connect_end w =
    if w.connected_bit
    then (ok, finish_connect_wait w)
    else if w.fail_bit
    then (err_io, finish_connect_wait w)
    else (err_timeout, finish_connect_wait (record w { connect_in_progress = false }))

-- The section of `blusys_wifi_disconnect`.
unfoldable pub disconnect : BlusysErr → Wifi → BlusysErr × Wifi
disconnect lock_err w =
    if lock_err == ok
    then (if w.closing then (err_invalid_state, w) else (
      ok,
      record w {
        manual_disconnect = true;
        connect_in_progress = false;
        last_disconnect_reason = user_requested;
        last_disconnect_reason_raw = none;
      },
    ))
    else (lock_err, w)

-- The section of `blusys_wifi_close`, and waking a client that waits in connecting.
unfoldable pub close_begin : BlusysErr → Wifi → BlusysErr × Wifi
close_begin lock_err w =
    let closed = record w {
      closing = true;
      manual_disconnect = false;
      connect_in_progress = false;
    } in
    if lock_err == ok
    then (ok, if w.connect_waiting then record closed { fail_bit = true } else closed)
    else (lock_err, w)

-- `xTaskNotifyGive` to the reconnect task, by the event handler or by closing.
unfoldable pub notify_worker : Wifi → Wifi
notify_worker w = record w { notified = true }

-- The readers, on a handle that is NULL, or whose lock cannot be taken, too.
unfoldable pub get_last_disconnect_reason : BlusysErr → Option Wifi → DisconnectReason
get_last_disconnect_reason lock_err none = unknown
get_last_disconnect_reason lock_err (some w) =
    if lock_err == ok then w.last_disconnect_reason else unknown

unfoldable pub get_last_disconnect_reason_raw : BlusysErr → Option Wifi → Option WifiReason
get_last_disconnect_reason_raw lock_err none = none
get_last_disconnect_reason_raw lock_err (some w) =
    if lock_err == ok then w.last_disconnect_reason_raw else none

unfoldable pub is_connected : BlusysErr → Option Wifi → Bool
is_connected lock_err none = false
is_connected lock_err (some w) = if lock_err == ok then w.connected else false
