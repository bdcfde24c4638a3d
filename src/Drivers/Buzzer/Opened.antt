-- ===== src/Drivers/Buzzer/Opened.antt =====
-- What opening a buzzer of components/blusys/src/drivers/buzzer.c takes, and failing or closing
-- gives back.
use blusys.Base.{
  ℕ, suc, ◌-◌, ◌≡◌, refl, Bool, true, not, some, [], ◌∷◌, ◌==◌, if◌then◌else◌, arith, inl, inr,
  Bool-cases, if_both,
}
use blusys.Hal.Error.{ok, translate_esp_err}
use blusys.Hal.Result.{Returned, done, fail}
use blusys.Drivers.Buzzer.Defs.{Buzzer}
use blusys.Drivers.Buzzer.Open.{
  Trace, Env, allocated, freed, lock_init, lock_deinit, pwm_open, pwm_close, timer_create,
  timer_delete, is_created, buzzer_open, buzzer_close, new_buzzer,
}

-- Blocks of the heap, mutexes, PWM handles and timers.
pub record Resources : Type 0 where
  pub blocks : ℕ
  pub mutexes : ℕ
  pub outputs : ℕ
  pub timers : ℕ

abbrev taken : Bool → ℕ → ℕ
taken b n = if b then suc n else n

-- What the calls of a trace have taken and not given back.
unfoldable pub owned : Trace → Resources
owned [] = record { blocks = 0; mutexes = 0; outputs = 0; timers = 0 }
owned (allocated ∷ t) = record (owned t) { blocks = suc (owned t).blocks }
owned (freed ∷ t) = record (owned t) { blocks = (owned t).blocks - 1 }
owned (lock_init err ∷ t) = record (owned t) { mutexes = taken (err == ok) (owned t).mutexes }
owned (lock_deinit ∷ t) = record (owned t) { mutexes = (owned t).mutexes - 1 }
owned (pwm_open err ∷ t) = record (owned t) { outputs = taken (err == ok) (owned t).outputs }
owned (pwm_close ∷ t) = record (owned t) { outputs = (owned t).outputs - 1 }
owned (timer_create e ∷ t) = record (owned t) { timers = taken (is_created e) (owned t).timers }
owned (timer_delete ∷ t) = record (owned t) { timers = (owned t).timers - 1 }
owned (c ∷ t) = owned t

-- Failing gives everything back, and so does closing what opening has given.
abbrev pub GivesBack : Trace → Returned Buzzer × Trace → Type 0
GivesBack t (done bz, t') = owned (buzzer_close (some bz) t').1 ≡ owned t
GivesBack t (fail err, t') = owned t' ≡ owned t

Resources-ext :
    (r q : Resources)
    → r.blocks ≡ q.blocks
    → r.mutexes ≡ q.mutexes
    → r.outputs ≡ q.outputs
    → r.timers ≡ q.timers
    → r ≡ q
Resources-ext r q b m o t = λ i. record { blocks = b i; mutexes = m i; outputs = o i; timers = t i }

-- From the call of `blusys_pwm_open` on.
opens_output :
    (env : Env) (t : Trace)
    → (env.init == ok) ≡ true
    → let t2 = pwm_open env.open_pwm ∷ lock_init env.init ∷ allocated ∷ t in
      let t3 = timer_create env.create ∷ t2 in
      GivesBack t (
        if not (env.open_pwm == ok)
        then (fail env.open_pwm, freed ∷ lock_deinit ∷ t2)
        else if is_created env.create
        then (done new_buzzer, t3)
        else (fail (translate_esp_err env.create), freed ∷ lock_deinit ∷ pwm_close ∷ t3))
unfolding owned buzzer_close
opens_output env t e = elim (Bool-cases (env.open_pwm == ok)) [
  | inl k ↦ rw k (elim (Bool-cases (is_created env.create)) [
    | inl c ↦ rw c (Resources-ext _ _ (ground arith) (ground arith) (ground arith) (ground arith))
    | inr c ↦ rw c (Resources-ext _ _ (ground arith) (ground arith) (ground arith) (ground arith))
  ])
  | inr k ↦ rw k (Resources-ext _ _ (ground arith) (ground arith) (ground arith) (ground arith))
]

-- A buzzer that cannot be opened has given back all that opening took; one that was opened gives it
-- back when it is closed.
pub buzzer_open-GivesBack :
    (env : Env) (has_config has_out : Bool) (t : Trace)
    → GivesBack t (buzzer_open env has_config has_out t)
unfolding buzzer_open owned buzzer_close
buzzer_open-GivesBack env has_config has_out t = if_both (GivesBack t) (not has_config) refl (
    if_both (GivesBack t) (not has_out) refl (
      if_both (GivesBack t) (not env.alloc) refl (elim (Bool-cases (env.init == ok)) [
        | inl e ↦ rw e (opens_output env t e)
        | inr e ↦
            rw e (Resources-ext _ _ (ground arith) (ground arith) (ground arith) (ground arith))
      ])))
