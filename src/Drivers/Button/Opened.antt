-- ===== src/Drivers/Button/Opened.antt =====
-- What opening a button of components/blusys/src/drivers/button.c takes, failing gives back, and
-- closing gives back.
use mathlib.Core.Path.{subst}
use blusys.Base.{
  ℕ, suc, ◌-◌, ◌≡◌, refl, ◌∙◌, Bool, true, false, not, some, List, [], ◌∷◌, ◌==◌, ltb,
  if◌then◌else◌, arith, Bool-cases, inl, inr, if_both, if_true, if_false,
}
use blusys.Hal.Error.{BlusysErr, ok, EspErr}
use blusys.Hal.Result.{Returned, done, fail}
use blusys.Drivers.Button.Defs.{Button}
use blusys.Drivers.Button.Open.{
  Config, GpioOp, gpio_reset, gpio_set_input, gpio_set_pull_mode, gpio_set_interrupt,
  gpio_set_callback, allocated, freed, lock_deinit, lock_init, timer_create, timer_stop,
  timer_delete, Trace, Env, gpio_call, callback_removed, created, undo_gpio, new_button, setup_gpio,
  open_pin, open_long_press, open_timers, open_valid, button_close, delete_long_press,
  stop_long_press,
}

-- Blocks of the heap, mutexes and timers.
pub record Resources : Type 0 where
  pub blocks : ℕ
  pub mutexes : ℕ
  pub timers : ℕ

-- What the calls of a trace have taken and not given back.
unfoldable pub owned : Trace → Resources
owned [] = record { blocks = 0; mutexes = 0; timers = 0 }
owned (allocated ∷ t) = record (owned t) { blocks = suc (owned t).blocks }
owned (freed ∷ t) = record (owned t) { blocks = (owned t).blocks - 1 }
owned (lock_init err ∷ t) =
    if err == ok then record (owned t) { mutexes = suc (owned t).mutexes } else owned t
owned (lock_deinit ∷ t) = record (owned t) { mutexes = (owned t).mutexes - 1 }
owned (timer_create e ∷ t) =
    if created e then record (owned t) { timers = suc (owned t).timers } else owned t
owned (timer_delete ∷ t) = record (owned t) { timers = (owned t).timers - 1 }
owned (c ∷ t) = owned t

-- The handle's resources on top of others.
unfoldable pub with_handle : Bool → Resources → Resources
with_handle long_press_timer r = record {
  blocks = suc r.blocks;
  mutexes = suc r.mutexes;
  timers = if long_press_timer then suc (suc r.timers) else suc r.timers;
}

unfoldable pub Opened : Trace → Returned Button × Trace → Type 0
Opened t (done btn, t') = owned t' ≡ with_handle btn.long_press_timer (owned t)
Opened t (fail err, t') = owned t' ≡ owned t

Resources-ext :
    (r q : Resources) → r.blocks ≡ q.blocks → r.mutexes ≡ q.mutexes → r.timers ≡ q.timers → r ≡ q
Resources-ext r q b m t = λ i. record { blocks = b i; mutexes = m i; timers = t i }

-- Giving a handle back leaves what was there before it.
owned-delete :
    (long : Bool) (t t0 : Trace)
    → owned t ≡ with_handle long (owned t0)
    → owned (freed ∷ lock_deinit ∷ timer_delete ∷ delete_long_press long t) ≡ owned t0
unfolding owned with_handle
owned-delete true t t0 h = rw h (Resources-ext _ _ (omega arith) (omega arith) (omega arith))
owned-delete false t t0 h = rw h (Resources-ext _ _ (omega arith) (omega arith) (omega arith))

undo_gpio-owned :
    (op : GpioOp) (err : BlusysErr) (t : Trace)
    → owned (undo_gpio op (gpio_call op err ∷ t)) ≡ owned t
unfolding undo_gpio owned
undo_gpio-owned gpio_reset err t = refl
undo_gpio-owned gpio_set_input err t = refl
undo_gpio-owned gpio_set_pull_mode err t = refl
undo_gpio-owned gpio_set_interrupt err t = refl
undo_gpio-owned gpio_set_callback err t = refl

owned-second_timer :
    (e : EspErr) (t t0 : Trace)
    → created e ≡ true
    → owned t ≡ with_handle false (owned t0)
    → owned (timer_create e ∷ t) ≡ with_handle true (owned t0)
unfolding owned with_handle
owned-second_timer e t t0 k h = rw (k, h) refl

owned-first_timer :
    (e : EspErr) (t t0 : Trace)
    → created e ≡ true
    → owned t
      ≡ record (owned t0) { blocks = suc (owned t0).blocks; mutexes = suc (owned t0).mutexes }
    → owned (timer_create e ∷ t) ≡ with_handle false (owned t0)
unfolding owned with_handle
owned-first_timer e t t0 k h = rw (k, h) refl

owned-no_timer : (e : EspErr) (t : Trace) → created e ≡ false → owned (timer_create e ∷ t) ≡ owned t
unfolding owned
owned-no_timer e t k = rw k refl

owned-undo :
    (t t0 : Trace)
    → owned t
      ≡ record (owned t0) { blocks = suc (owned t0).blocks; mutexes = suc (owned t0).mutexes }
    → owned (freed ∷ lock_deinit ∷ t) ≡ owned t0
unfolding owned
owned-undo t t0 h = rw h (Resources-ext _ _ (omega arith) (omega arith) refl)

module _ (env : Env) where
  setup_gpio-owned : (ops : List GpioOp) (t : Trace) → owned (setup_gpio env ops t).1 ≡ owned t
  unfolding setup_gpio owned
  setup_gpio-owned [] t = refl
  setup_gpio-owned (op ∷ ops) t =
      if_both (λ (r : BlusysErr × Trace). owned r.1 ≡ owned t) (env.gpio op t == ok)
        (setup_gpio-owned ops (gpio_call op (env.gpio op t) ∷ t))
        (undo_gpio-owned op (env.gpio op t) t)

  open_pin-Opened :
      (c : Config) (t t0 : Trace)
      → owned t ≡ with_handle (ltb 0 c.long_press_ms) (owned t0)
      → Opened t0 (open_pin env c t)
  unfolding open_pin Opened new_button
  open_pin-Opened c t t0 h =
      let ops =
        gpio_reset ∷ gpio_set_input ∷ gpio_set_pull_mode ∷ gpio_set_interrupt ∷ gpio_set_callback
        ∷ [] in
      let kept = setup_gpio-owned ops t ∙ h in
      if_both (Opened t0) ((setup_gpio env ops t).0 == ok) kept
        (owned-delete (ltb 0 c.long_press_ms) (setup_gpio env ops t).1 t0 kept)

  open_long_press-Opened :
      (c : Config) (t t0 : Trace)
      → owned t ≡ with_handle false (owned t0)
      → Opened t0 (open_long_press env c t)
  unfolding open_long_press Opened
  open_long_press-Opened c t t0 h = elim (Bool-cases (ltb 0 c.long_press_ms)) [
    | inl e ↦
        if_true (Opened t0) (ltb 0 c.long_press_ms) _ _ e
          (elim (Bool-cases (created (env.create t))) [
            | inl k ↦ if_true (Opened t0) (created (env.create t)) _ _ k (
                open_pin-Opened c (timer_create (env.create t) ∷ t) t0
                  (rw e (owned-second_timer (env.create t) t t0 k h)))
            | inr k ↦ if_false (Opened t0) (created (env.create t)) _ _ k (
                owned-delete false (timer_create (env.create t) ∷ t) t0
                  (owned-no_timer (env.create t) t k ∙ h))
          ])
    | inr e ↦ if_false (Opened t0) (ltb 0 c.long_press_ms) _ _ e (open_pin-Opened c t t0 (rw e h))
  ]

  open_timers-Opened :
      (c : Config) (t t0 : Trace)
      → owned t
        ≡ record (owned t0) { blocks = suc (owned t0).blocks; mutexes = suc (owned t0).mutexes }
      → Opened t0 (open_timers env c t)
  unfolding open_timers Opened
  open_timers-Opened c t t0 h = elim (Bool-cases (created (env.create t))) [
    | inl k ↦ if_true (Opened t0) (created (env.create t)) _ _ k (
        open_long_press-Opened c (timer_create (env.create t) ∷ t) t0
          (owned-first_timer (env.create t) t t0 k h))
    | inr k ↦
        if_false (Opened t0) (created (env.create t)) _ _ k
          (owned-undo (timer_create (env.create t) ∷ t) t0 (owned-no_timer (env.create t) t k ∙ h))
  ]

  -- Opening a button either gives a handle that has taken a block, a mutex, and one timer, or two with
  -- a long press, or fails with everything given back.
  pub open_valid-Opened : (c : Config) (t : Trace) → Opened t (open_valid env c t)
  unfolding open_valid Opened owned
  open_valid-Opened c t =
      if_both (Opened t) (not env.alloc) refl (elim (Bool-cases (env.init == ok)) [
        | inl e ↦
            if_true (Opened t) (env.init == ok) _ _ e
              (open_timers-Opened c (lock_init env.init ∷ allocated ∷ t) t (rw e refl))
        | inr e ↦
            if_false (Opened t) (env.init == ok) _ _ e
              (rw e (Resources-ext _ _ (omega arith) refl refl))
      ])

owned-close :
    (long : Bool) (t t0 : Trace)
    → owned t ≡ with_handle long (owned t0)
    → owned (
        freed
        ∷ lock_deinit
        ∷ delete_long_press long
            (timer_delete ∷ stop_long_press long (timer_stop ∷ callback_removed ∷ t)))
      ≡ owned t0
unfolding owned with_handle
owned-close true t t0 h = rw h (Resources-ext _ _ (omega arith) (omega arith) (omega arith))
owned-close false t t0 h = rw h (Resources-ext _ _ (omega arith) (omega arith) (omega arith))

-- Closing a button that opening has given leaves what there was before opening.
pub button_open-button_close :
    (env : Env) (c : Config) (t t' : Trace) (btn : Button)
    → open_valid env c t ≡ (done btn, t')
    → owned (button_close (some btn) t').1 ≡ owned t
unfolding button_close Opened
button_open-button_close env c t t' btn h =
    let opened : Opened t (done btn, t') =
      subst (λ (r : Returned Button × Trace). Opened t r) h (open_valid-Opened env c t) in
    owned-close (btn.long_press_timer) t' t opened
