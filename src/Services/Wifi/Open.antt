-- ===== src/Services/Wifi/Open.antt =====
-- Opening and closing a station of components/blusys/src/services/connectivity/wifi.c. What the
-- heap, the lock and the SDK return is decided by an environment; the calls that take or give
-- something are recorded, newest first.
use blusys.Base.{
  ℕ, ◌-◌, Bool, false, not, Option, none, some, List, [], ◌∷◌, ◌==◌, if◌then◌else◌, take,
}
use blusys.Base.Int.{ℤ, pos, ltb_ℤ}
use blusys.Hal.Error.{
  BlusysErr, ok, err_invalid_arg, err_no_mem, err_internal, EspErr, translate_esp_err,
}
use blusys.Hal.Result.{Returned, done, fail}
use blusys.Services.Wifi.Reason.{unknown}
use blusys.Services.Wifi.Defs.{Wifi, waiting}
use blusys.Services.Wifi.Sections.{is_ok}

-- What opening takes: a block of the heap, a mutex, an event group, the reconnect task, the network stack, its
-- interface, and the handlers of the two event bases.
pub data Resource : Type 0 where
  block mutex event_group reconnect_task bootstrap netif wifi_handler ip_handler : Resource

pub data Call : Type 0 where
  takes gives : Resource → Call

abbrev pub Trace : Type 0
Trace = List Call

pub record Env : Type 0 where
  pub alloc : Bool
  pub init : BlusysErr
  pub create_group : Bool
  pub create_task : Bool
  pub start_bootstrap : BlusysErr
  pub create_netif : Bool
  pub register_wifi : EspErr
  pub register_ip : EspErr
  pub set_mode : EspErr
  pub set_config : EspErr
  pub start : EspErr

-- `blusys_wifi_sta_config_t` less the callback.
pub record Config : Type 0 where
  pub ssid : Option (List ℕ)
  pub password : Option (List ℕ)
  pub auto_reconnect : Bool
  pub reconnect_delay_ms : ℤ
  pub max_retries : ℤ

abbrev pub delay_or_default : ℤ → ℤ
delay_or_default reconnect_delay_ms =
    if ltb_ℤ (pos 0) reconnect_delay_ms then reconnect_delay_ms else pos 1000

-- `strncpy` of all but the last byte into a field of zeros: first into the handle, whose fields have 33
-- and 65 bytes, and from there into a field of the SDK.
abbrev pub sdk_text : ℕ → ℕ → List ℕ → List ℕ
sdk_text sdk_size handle_size text = take (sdk_size - 1) (take (handle_size - 1) text)

unfoldable pub new_wifi : Config → Wifi
new_wifi c = record {
  connected = false;
  closing = false;
  manual_disconnect = false;
  ever_connected = false;
  connect_in_progress = false;
  connect_waiting = false;
  auto_reconnect = c.auto_reconnect;
  reconnect_delay_ms = delay_or_default c.reconnect_delay_ms;
  max_retries = c.max_retries;
  retry_count = 0;
  last_disconnect_reason = unknown;
  last_disconnect_reason_raw = none;
  connected_bit = false;
  fail_bit = false;
  done_bit = false;
  exited_bit = false;
  notified = false;
  worker = waiting;
  marks = [];
}

-- The labels at the end of `blusys_wifi_open`.
abbrev pub fail_bootstrap : Trace → Trace
fail_bootstrap t = gives block ∷ gives mutex ∷ gives event_group ∷ gives reconnect_task ∷ t

abbrev pub fail_netif_create : Trace → Trace
fail_netif_create t = fail_bootstrap (gives bootstrap ∷ t)

abbrev pub fail_handler_wifi : Trace → Trace
fail_handler_wifi t = fail_netif_create (gives netif ∷ t)

abbrev pub fail_handler_ip : Trace → Trace
fail_handler_ip t = fail_handler_wifi (gives wifi_handler ∷ t)

abbrev pub fail_set_mode : Trace → Trace
fail_set_mode t = fail_handler_ip (gives ip_handler ∷ t)

-- From `blusys_net_bootstrap_start_wifi` on.
unfoldable pub start_station : Env → Config → Trace → Returned Wifi × Trace
start_station env c t =
    let t1 = takes bootstrap ∷ t in
    let t2 = takes netif ∷ t1 in
    let t3 = takes wifi_handler ∷ t2 in
    let t4 = takes ip_handler ∷ t3 in
    if not (env.start_bootstrap == ok)
    then (fail env.start_bootstrap, fail_bootstrap t)
    else if not env.create_netif
    then (fail err_internal, fail_netif_create t1)
    else if not (is_ok env.register_wifi)
    then (fail (translate_esp_err env.register_wifi), fail_handler_wifi t2)
    else if not (is_ok env.register_ip)
    then (fail (translate_esp_err env.register_ip), fail_handler_ip t3)
    else if not (is_ok env.set_mode)
    then (fail (translate_esp_err env.set_mode), fail_set_mode t4)
    else if not (is_ok env.set_config)
    then (fail (translate_esp_err env.set_config), fail_set_mode t4)
    else if is_ok env.start
    then (done (new_wifi c), t4)
    else (fail (translate_esp_err env.start), fail_set_mode t4)

-- From `calloc` on.
unfoldable pub open_station : Env → Config → Trace → Returned Wifi × Trace
open_station env c t =
    let t1 = takes block ∷ t in
    let t2 = takes mutex ∷ t1 in
    let t3 = takes event_group ∷ t2 in
    let started = start_station env c (takes reconnect_task ∷ t3) in
    if not env.alloc
    then (fail err_no_mem, t)
    else if not (env.init == ok)
    then (fail env.init, gives block ∷ t1)
    else if not env.create_group
    then (fail err_no_mem, gives block ∷ gives mutex ∷ t2)
    else if env.create_task
    then started
    else (fail err_no_mem, gives block ∷ gives mutex ∷ gives event_group ∷ t3)

-- `blusys_wifi_open`
unfoldable pub wifi_open : Env → Option Config → Bool → Trace → Returned Wifi × Trace
wifi_open env none has_out t = (fail err_invalid_arg, t)
wifi_open env (some c) has_out t =
    let opened = open_station env c t in
    elim (c.ssid) as (λ x. Returned Wifi × Trace) [
      | none ↦ (fail err_invalid_arg, t)
      | some ssid ↦ if has_out then opened else (fail err_invalid_arg, t)
    ]

-- What `blusys_wifi_close` gives, once its section has run and the reconnect task has exited.
unfoldable pub close_end : Trace → Trace
close_end t =
    gives block
    ∷ gives mutex
    ∷ gives event_group
    ∷ gives bootstrap
    ∷ gives netif
    ∷ gives ip_handler
    ∷ gives wifi_handler
    ∷ gives reconnect_task
    ∷ t
