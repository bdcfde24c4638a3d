-- ===== src/Drivers/Button/Phases.antt =====
-- The runs of the timers of components/blusys/src/drivers/button.c, and the order of events that a
-- client of the button expects.
use blusys.Base.{ℕ, ◌≡◌, Bool, true, false, Option, none, some, List, [], ◌∷◌, ◌++◌, if◌then◌else◌}
use blusys.Drivers.Button.Defs.{
  ButtonEvent, press, release, long_press, Button, debounce_timer_cb, long_press_timer_cb,
  button_gpio_isr_cb,
}

-- What the SDK runs: the interrupt; the debounce timer, with the level that it reads; the long-press
-- timer, which runs once and only if it is armed.
pub data Firing : Type 0 where
  edge : Firing
  debounce_fires : Option Bool → Firing
  long_press_fires : Firing

unfoldable pub fire : Firing → Button → Button × List (ℕ × ButtonEvent)
fire edge btn = (button_gpio_isr_cb btn, [])
fire (debounce_fires level) btn =
    let run = debounce_timer_cb level (record btn { debounce_armed = false }) in
    if btn.debounce_armed then run else (btn, [])
fire long_press_fires btn =
    let run = long_press_timer_cb (record btn { long_press_armed = false }) in
    if btn.long_press_armed then run else (btn, [])

unfoldable pub fires : List Firing → Button → Button × List (ℕ × ButtonEvent)
fires [] btn = (btn, [])
fires (f ∷ fs) btn =
    let (btn1, now) = fire f btn in let (btn2, later) = fires fs btn1 in (btn2, now ++ later)

-- The button as a client sees it: up, down, or held for a long press.
pub data Phase : Type 0 where
  up down held : Phase

unfoldable pub next_phase : Phase → ButtonEvent → Option Phase
next_phase up press = some down
next_phase down release = some up
next_phase down long_press = some held
next_phase held release = some up
next_phase _ _ = none

unfoldable pub follow : Phase → List (ℕ × ButtonEvent) → Option Phase
follow p [] = some p
follow p ((cb, event) ∷ rest) = elim (next_phase p event) as (λ x. Option Phase) [
  | none ↦ none
  | some p' ↦ follow p' rest
]

-- What the handle knows of the phase.
unfoldable pub InPhase : Phase → Button → Type 0
InPhase up btn = (btn.pressed ≡ false) × (btn.long_press_armed ≡ false)
InPhase down btn = btn.pressed ≡ true
InPhase held btn = (btn.pressed ≡ true) × (btn.long_press_armed ≡ false)

-- An open button with a callback, whose long-press timer can be armed only if it exists.
pub record Reports (cb : ℕ) (btn : Button) : Type 0 where
  pub has_callback : btn.callback ≡ some cb
  pub is_open : btn.closing ≡ false
  pub no_timer : btn.long_press_timer ≡ false → btn.long_press_armed ≡ false

-- A run of the timers from phase p: its events lead to a phase in which the handle then is.
unfoldable pub Follows : (cb : ℕ) (p : Phase) (r : Button × List (ℕ × ButtonEvent)) → Type 0
Follows cb p (btn, events) =
    Reports cb btn × (p' : Phase) × (follow p events ≡ some p') × InPhase p' btn
