-- ===== src/Services/Wifi/Opened.antt =====
-- What opening a station of components/blusys/src/services/connectivity/wifi.c takes, and failing
-- or closing gives back.
use blusys.Base.{
  ℕ, ◌≡◌, refl, Bool, not, Option, none, some, List, [], ◌∷◌, ◌==◌, if◌then◌else◌, if_both,
  Option-cases, inl, inr, ◌<◌, ◌≢◌, ◌-◌, length, take, length-take, ap, arith,
}
use blusys.Hal.Error.{ok}
use blusys.Hal.Result.{Returned, done, fail}
use blusys.Services.Wifi.Defs.{Wifi}
use blusys.Services.Wifi.Sections.{is_ok}
use blusys.Services.Wifi.Open.{
  Resource, block, mutex, event_group, reconnect_task, bootstrap, netif, wifi_handler, ip_handler,
  takes, gives, Trace, Env, Config, start_station, open_station, wifi_open, close_end, sdk_text,
}

abbrev number : Resource → ℕ
number block = 0
number mutex = 1
number event_group = 2
number reconnect_task = 3
number bootstrap = 4
number netif = 5
number wifi_handler = 6
number ip_handler = 7

-- The list without one of its resources.
unfoldable pub without : Resource → List Resource → List Resource
without r [] = []
without r (q ∷ rest) = if number r == number q then rest else q ∷ without r rest

-- What the calls of a trace have taken and not given back.
unfoldable pub owned : Trace → List Resource
owned [] = []
owned (takes r ∷ t) = r ∷ owned t
owned (gives r ∷ t) = without r (owned t)

-- Failing gives everything back, and so does closing what opening has given.
abbrev pub GivesBack : Trace → Returned Wifi × Trace → Type 0
GivesBack t (done w, t') = owned (close_end t') ≡ owned t
GivesBack t (fail err, t') = owned t' ≡ owned t

start_station-GivesBack :
    (env : Env) (c : Config) (t : Trace)
    → GivesBack t (
        start_station env c
          (takes reconnect_task ∷ takes event_group ∷ takes mutex ∷ takes block ∷ t))
unfolding start_station owned without close_end
start_station-GivesBack env c t = if_both (GivesBack t) (not (env.start_bootstrap == ok)) refl (
    if_both (GivesBack t) (not env.create_netif) refl (
      if_both (GivesBack t) (not (is_ok env.register_wifi)) refl (
        if_both (GivesBack t) (not (is_ok env.register_ip)) refl (
          if_both (GivesBack t) (not (is_ok env.set_mode)) refl (
            if_both (GivesBack t) (not (is_ok env.set_config)) refl
              (if_both (GivesBack t) (is_ok env.start) refl refl))))))

open_station-GivesBack : (env : Env) (c : Config) (t : Trace) → GivesBack t (open_station env c t)
unfolding open_station owned without
open_station-GivesBack env c t = if_both (GivesBack t) (not env.alloc) refl (
    if_both (GivesBack t) (not (env.init == ok)) refl (
      if_both (GivesBack t) (not env.create_group) refl
        (if_both (GivesBack t) (env.create_task) (start_station-GivesBack env c t) refl)))

-- Wherever opening a station fails, it has given back all that it took; one that was opened gives it back when it is
-- closed.
pub wifi_open-GivesBack :
    (env : Env) (c : Option Config) (has_out : Bool) (t : Trace)
    → GivesBack t (wifi_open env c has_out t)
unfolding wifi_open
wifi_open-GivesBack env none has_out t = refl
wifi_open-GivesBack env (some c) has_out t = elim (Option-cases (c.ssid)) [
  | inl e ↦ rw e refl
  | inr (ssid, e) ↦ rw e (if_both (GivesBack t) has_out (open_station-GivesBack env c t) refl)
]

-- A name or password that fills the field of the SDK reaches it without its last byte, which the copy keeps for a
-- NUL that the field does not need.
pub sdk_text_short :
    (sdk_size handle_size : ℕ) (text : List ℕ)
    → 0 < sdk_size
    → length text ≡ sdk_size
    → sdk_text sdk_size handle_size text ≢ text
sdk_text_short sdk_size handle_size text h e same = absurd (
    omega (
      arith,
      ap (λ (l : List ℕ). length l) same,
      length-take (sdk_size - 1) (take (handle_size - 1) text),
      e,
    ))
