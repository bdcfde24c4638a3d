-- ===== src/Services/Wifi/Run.antt =====
-- The tasks that use one handle of components/blusys/src/services/connectivity/wifi.c: the
-- reconnect task, the event handler and a client run their critical sections in any order, also in
-- orders that the code of one task excludes.
use blusys.Base.{Option, List, [], ◌∷◌}
use blusys.Hal.Error.{BlusysErr, EspErr}
use blusys.Services.Wifi.Reason.{WifiReason}
use blusys.Services.Wifi.Defs.{Wifi}
use blusys.Services.Wifi.Sections.{
  reconnect_step, on_disconnected, on_got_ip, connect_begin, connect_check, connect_call,
  connect_end, disconnect, close_begin, notify_worker,
}

-- A section, with the result of taking the lock and what the SDK returns.
pub data Section : Type 0 where
  worker_steps : BlusysErr → EspErr → Section
  disconnected : BlusysErr → Option WifiReason → Section
  got_ip connect_begins connect_checks disconnects closes : BlusysErr → Section
  connect_calls : EspErr → Section
  connect_ends notifies : Section

unfoldable pub step : Section → Wifi → Wifi
step (worker_steps lock_err esp_err) w = reconnect_step w.worker lock_err esp_err w
step (disconnected lock_err disc) w = (on_disconnected lock_err disc w).0
step (got_ip lock_err) w = on_got_ip lock_err w
step (connect_begins lock_err) w = (connect_begin lock_err w).1
step (connect_checks lock_err) w = (connect_check lock_err w).1
step (connect_calls esp_err) w = (connect_call esp_err w).1
step connect_ends w = (connect_end w).1
step (disconnects lock_err) w = (disconnect lock_err w).1
step (closes lock_err) w = (close_begin lock_err w).1
step notifies w = notify_worker w

unfoldable pub run : List Section → Wifi → Wifi
run [] w = w
run (s ∷ ss) w = run ss (step s w)
