-- ===== src/Services/Wifi/Tests.antt =====
-- The theorems about components/blusys/src/services/connectivity/wifi.c at concrete inputs.
use blusys.Base.{◌≤◌, ◌≡◌, ◌≢◌, refl, true, none, some, List, [], ◌∷◌, arith, replicate}
use blusys.Base.Int.{pos}
use blusys.Hal.Error.{ok, err_busy, EspErr}
use blusys.Services.Wifi.Reason.{beacon_timeout, no_ap_found}
use blusys.Services.Wifi.Defs.{waiting, delaying, calling, exited, Wifi, retry_allowed}
use blusys.Services.Wifi.Sections.{
  reconnect_step, count_retry, on_disconnected, on_got_ip, connect_begin, connect_check,
  connect_call, notify_worker,
}
use blusys.Services.Wifi.Run.{
  Section, worker_steps, disconnected, got_ip, connect_begins, connect_checks, connect_calls,
  notifies, step, run,
}
use blusys.Services.Wifi.Retries.{attempts, run-attempts-le}
use blusys.Services.Wifi.Closing.{worker_count, run-exits}
use blusys.Services.Wifi.Open.{Env, Config, new_wifi, wifi_open, sdk_text}
use blusys.Services.Wifi.Opened.{GivesBack, wifi_open-GivesBack, sdk_text_short}

abbrev config : Config
config = record {
  ssid = some (b'n' ∷ []);
  password = none;
  auto_reconnect = true;
  reconnect_delay_ms = pos 0;
  max_retries = pos 2;
}

-- A client connects, and the link is lost three times.
abbrev lost_thrice : List Section
lost_thrice =
    connect_begins ok
    ∷ connect_checks ok
    ∷ connect_calls EspErr.esp_ok
    ∷ got_ip ok
    ∷ disconnected ok (some beacon_timeout)
    ∷ notifies
    ∷ worker_steps ok EspErr.esp_ok
    ∷ worker_steps ok EspErr.esp_ok
    ∷ worker_steps ok EspErr.esp_ok
    ∷ worker_steps ok EspErr.esp_ok
    ∷ worker_steps ok EspErr.esp_ok
    ∷ disconnected ok (some no_ap_found)
    ∷ notifies
    ∷ worker_steps ok EspErr.esp_ok
    ∷ worker_steps ok EspErr.esp_ok
    ∷ worker_steps ok EspErr.esp_ok
    ∷ worker_steps ok EspErr.esp_ok
    ∷ worker_steps ok EspErr.esp_ok
    ∷ disconnected ok (some no_ap_found)
    ∷ notifies
    ∷ worker_steps ok EspErr.esp_ok
    ∷ worker_steps ok EspErr.esp_ok
    ∷ []

two_retries : (run lost_thrice (new_wifi config)).retry_count ≡ 2
unfolding run step connect_begin connect_check on_got_ip on_disconnected notify_worker
    reconnect_step count_retry retry_allowed new_wifi connect_call
two_retries = refl

run-attempts-le_example : attempts (run lost_thrice (new_wifi config)).marks ≤ 2
unfolding new_wifi attempts
run-attempts-le_example = run-attempts-le 2 lost_thrice (new_wifi config) refl refl (ground arith)

-- A retry is about to call the SDK.
abbrev at_call : Wifi
at_call = record (new_wifi config) {
  ever_connected = true;
  connect_in_progress = true;
  retry_count = 1;
  worker = calling;
}

-- The SDK refuses a retry: though more are allowed, the task waits.
refused_retry :
    let w' = reconnect_step calling ok EspErr.fail at_call in
    (retry_allowed w' ≡ true)
    × (w'.worker ≡ waiting)
    × (reconnect_step w'.worker ok EspErr.esp_ok w' ≡ w')
unfolding new_wifi retry_allowed reconnect_step
refused_retry = (refl, refl, refl)

-- Closing finds the task delaying; meanwhile the link is lost and a client tries to connect.
abbrev closing_delayed : Wifi
closing_delayed = record (new_wifi config) { closing = true; notified = true; worker = delaying }

run-exits_example :
    ((run
        (worker_steps err_busy EspErr.fail
          ∷ disconnected ok none
          ∷ connect_begins ok
          ∷ worker_steps ok EspErr.esp_ok
          ∷ [])
        closing_delayed).worker
      ≡ exited)
    × ((run
          (worker_steps err_busy EspErr.fail
            ∷ disconnected ok none
            ∷ connect_begins ok
            ∷ worker_steps ok EspErr.esp_ok
            ∷ [])
          closing_delayed).exited_bit
        ≡ true)
unfolding worker_count
run-exits_example =
    run-exits
      (worker_steps err_busy EspErr.fail
        ∷ disconnected ok none
        ∷ connect_begins ok
        ∷ worker_steps ok EspErr.esp_ok
        ∷ [])
      closing_delayed refl refl (λ e. cc) (ground arith)

abbrev no_start : Env
no_start = record {
  alloc = true;
  init = ok;
  create_group = true;
  create_task = true;
  start_bootstrap = ok;
  create_netif = true;
  register_wifi = EspErr.esp_ok;
  register_ip = EspErr.esp_ok;
  set_mode = EspErr.esp_ok;
  set_config = EspErr.esp_ok;
  start = EspErr.fail;
}

wifi_open-GivesBack_example : GivesBack [] (wifi_open no_start (some config) true [])
wifi_open-GivesBack_example = wifi_open-GivesBack no_start (some config) true []

lost_byte : sdk_text 32 33 (replicate 32 b'n') ≢ replicate 32 b'n'
lost_byte = sdk_text_short 32 33 (replicate 32 b'n') (ground arith) refl
