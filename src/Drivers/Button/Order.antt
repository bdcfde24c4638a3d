-- ===== src/Drivers/Button/Order.antt =====
-- The order in which a button of components/blusys/src/drivers/button.c reports its events.
use blusys.Base.{
  ℕ, ◌+◌, ◌%◌, ◌^◌, ◌≡◌, refl, ◌∙◌, Bool, true, false, not, ◌||◌, Option, none, some, List, [], ◌∷◌,
  ◌++◌, arith, Bool-cases, Option-cases, inl, inr, if_both, if_true, if_false,
}
use blusys.Base.Bits.{xor}
use blusys.Hal.Lifecycle.{try_enter, leave}
use blusys.Drivers.Button.Defs.{
  ButtonEvent, press, release, long_press, Button, invoke_callback, logical_level, arm_long_press,
  change_pressed, debounce_timer_cb, long_press_timer_cb, button_gpio_isr_cb,
}
use blusys.Drivers.Button.Phases.{
  Firing, edge, debounce_fires, long_press_fires, fire, fires, Phase, up, down, held, next_phase,
  follow, InPhase, Reports, Follows,
}

-- The callback runs once.
invoke_callback-runs :
    (cb : ℕ) (event : ButtonEvent) (btn : Button)
    → Reports cb btn
    → invoke_callback event btn ≡ (
      record btn { callback_active = leave ((btn.callback_active + 1) % 2 ^ 32) },
      (cb, event) ∷ [],
    )
unfolding invoke_callback try_enter
invoke_callback-runs cb event btn r = ground (arith, r)

-- The button after a press, and after a release.
arm_long_press-Reports :
    (cb : ℕ) (armed pressed : Bool) (btn : Button)
    → Reports cb btn
    → Reports cb (arm_long_press armed (record btn { pressed = pressed }))
unfolding arm_long_press
arm_long_press-Reports cb armed pressed btn r = ground (arith, r)

Follows-one :
    (cb : ℕ) (p p' : Phase) (event : ButtonEvent) (btn : Button)
    → Reports cb btn
    → next_phase p event ≡ some p'
    → InPhase p' (record btn { callback_active = leave ((btn.callback_active + 1) % 2 ^ 32) })
    → Follows cb p (invoke_callback event btn)
unfolding Follows follow
Follows-one cb p p' event btn r h i =
    let followed : follow p ((cb, event) ∷ []) ≡ some p' = rw (follow, h) refl in
    rw (invoke_callback-runs cb event btn r) (
      record { has_callback = r.has_callback; is_open = r.is_open; no_timer = r.no_timer },
      p',
      followed,
      i,
    )

change_pressed-Follows :
    (cb : ℕ) (p : Phase) (new_pressed : Bool) (btn : Button)
    → Reports cb btn
    → InPhase p btn
    → xor new_pressed btn.pressed ≡ true
    → Follows cb p (change_pressed new_pressed btn)
unfolding change_pressed InPhase next_phase arm_long_press
change_pressed-Follows cb up true btn r i x =
    Follows-one cb up down press _ (arm_long_press-Reports cb true true btn r) refl (ground arith)
change_pressed-Follows cb up false btn r i x = absurd (ground (arith, i, x))
change_pressed-Follows cb down true btn r i x = absurd (ground (arith, i, x))
change_pressed-Follows cb down false btn r i x =
    Follows-one cb down up release _ (arm_long_press-Reports cb false false btn r) refl
      (ground (arith, r))
change_pressed-Follows cb held true btn r i x = absurd (ground (arith, i, x))
change_pressed-Follows cb held false btn r i x =
    Follows-one cb held up release _ (arm_long_press-Reports cb false false btn r) refl
      (ground (arith, r))

-- Nothing is reported, and the phase stays.
Follows-silent :
    (cb : ℕ) (p : Phase) (btn : Button) → Reports cb btn → InPhase p btn → Follows cb p (btn, [])
unfolding Follows follow
Follows-silent cb p btn r i = (r, p, refl, i)

debounce-Follows :
    (cb : ℕ) (p : Phase) (level : Option Bool) (btn : Button)
    → Reports cb btn
    → InPhase p btn
    → Follows cb p (debounce_timer_cb level btn)
unfolding debounce_timer_cb
debounce-Follows cb p none btn r i = Follows-silent cb p btn r i
debounce-Follows cb p (some raw) btn r i =
    let new = logical_level btn.active_low raw in
    if_false (Follows cb p) (btn.closing) _ _ r.is_open (elim (Bool-cases (xor new btn.pressed)) [
      | inl e ↦
          if_true (Follows cb p) (xor new btn.pressed) _ _ e
            (change_pressed-Follows cb p new btn r i e)
      | inr e ↦ if_false (Follows cb p) (xor new btn.pressed) _ _ e (Follows-silent cb p btn r i)
    ])

Reports-unarmed :
    (cb : ℕ) (btn : Button) → Reports cb btn → Reports cb (record btn { long_press_armed = false })
Reports-unarmed cb btn r = record {
  has_callback = r.has_callback;
  is_open = r.is_open;
  no_timer = λ e. refl;
}

long_press-Follows :
    (cb : ℕ) (p : Phase) (btn : Button)
    → Reports cb btn
    → InPhase p btn
    → btn.long_press_armed ≡ true
    → Follows cb p (long_press_timer_cb (record btn { long_press_armed = false }))
unfolding long_press_timer_cb InPhase next_phase
long_press-Follows cb up btn r i e = absurd (ground (arith, i, e))
long_press-Follows cb down btn r i e =
    if_false (Follows cb down) (btn.closing || not btn.pressed) _ _ (ground (arith, i, r)) (
      Follows-one cb down held long_press (record btn { long_press_armed = false })
        (Reports-unarmed cb btn r) refl (i, refl))
long_press-Follows cb held btn r i e = absurd (ground (arith, i, e))

Reports-rearmed :
    (cb : ℕ) (armed : Bool) (btn : Button)
    → Reports cb btn
    → Reports cb (record btn { debounce_armed = armed })
Reports-rearmed cb armed btn r = record {
  has_callback = r.has_callback;
  is_open = r.is_open;
  no_timer = r.no_timer;
}

InPhase-rearmed :
    (p : Phase) (armed : Bool) (btn : Button)
    → InPhase p btn
    → InPhase p (record btn { debounce_armed = armed })
unfolding InPhase
InPhase-rearmed up armed btn i = i
InPhase-rearmed down armed btn i = i
InPhase-rearmed held armed btn i = i

fire-Follows :
    (cb : ℕ) (p : Phase) (f : Firing) (btn : Button)
    → Reports cb btn
    → InPhase p btn
    → Follows cb p (fire f btn)
unfolding fire button_gpio_isr_cb
fire-Follows cb p edge btn r i =
    Follows-silent cb p (record btn { debounce_armed = true }) (Reports-rearmed cb true btn r)
      (InPhase-rearmed p true btn i)
fire-Follows cb p (debounce_fires level) btn r i =
    if_both (Follows cb p) (btn.debounce_armed)
      (debounce-Follows cb p level (record btn { debounce_armed = false })
        (Reports-rearmed cb false btn r) (InPhase-rearmed p false btn i))
      (Follows-silent cb p btn r i)
fire-Follows cb p long_press_fires btn r i = elim (Bool-cases (btn.long_press_armed)) [
  | inl e ↦ if_true (Follows cb p) (btn.long_press_armed) _ _ e (long_press-Follows cb p btn r i e)
  | inr e ↦ if_false (Follows cb p) (btn.long_press_armed) _ _ e (Follows-silent cb p btn r i)
]

follow-append :
    (p : Phase) (xs ys : List (ℕ × ButtonEvent)) (p' : Phase)
    → follow p xs ≡ some p'
    → follow p (xs ++ ys) ≡ follow p' ys
unfolding follow
follow-append p [] ys p' h = ground (arith, h)
follow-append p ((cb, event) ∷ xs) ys p' h = elim (Option-cases (next_phase p event)) [
  | inl e ↦ absurd (ground (arith, e, h))
  | inr (q, e) ↦ rw (follow, e) (follow-append q xs ys p' (rw (follow, e) at h))
]

-- Whatever levels the debounce timer reads and whenever the timers run, an open button with a callback
-- that is in a phase reports a press, then at most one long press, then the release, from that phase
-- on, and is then in the phase that the events lead to. A long-press timer that does not exist is not
-- armed.
pub fires-Follows :
    (fs : List Firing) (cb : ℕ) (p : Phase) (btn : Button)
    → Reports cb btn
    → InPhase p btn
    → Follows cb p (fires fs btn)
unfolding fires Follows
fires-Follows [] cb p btn r i = Follows-silent cb p btn r i
fires-Follows (f ∷ fs) cb p btn r i =
    let (r1, p1, h1, i1) = fire-Follows cb p f btn r i in
    let (r2, p2, h2, i2) = fires-Follows fs cb p1 (fire f btn).0 r1 i1 in
    (r2, p2, follow-append p (fire f btn).1 (fires fs (fire f btn).0).1 p1 h1 ∙ h2, i2)
