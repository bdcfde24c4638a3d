-- ===== src/Drivers/Encoder/Tick.antt =====
-- One run of the debounce timer of components/blusys/src/drivers/encoder.c, for each change of the
-- levels.
use blusys.Base.{
  ℕ, zero, suc, ◌≤◌, ◌<◌, ◌≡◌, refl, Bool, true, false, some, List, arith, ◌==◌, if◌then◌else◌,
  Bool-cases, inl, inr, ap₂, if_both, if_true, if_false,
}
use blusys.Base.Int.{ℤ, pos, negsuc, ◌+ℤ◌}
use blusys.Drivers.Encoder.Defs.{
  Encoder, Invocation, to_int8, level_state, gray_delta, is_zero, apply_levels,
  gpio_debounce_timer_cb,
}
use blusys.Drivers.Encoder.Count.{
  Balance-refl, Step, Running, Counted, count_detent-Counted, count_detent-levels,
}

-- The order of the levels in a clockwise turn.
unfoldable pub next_clockwise : ℕ → ℕ
next_clockwise zero = 1
next_clockwise (suc zero) = 3
next_clockwise (suc (suc zero)) = 0
next_clockwise (suc (suc (suc n))) = 2

-- Whether a change of level is a step in that order.
unfoldable pub clockwise : ℕ → ℕ → ℕ
clockwise old new = if next_clockwise old == new then 1 else 0

seen-Running :
    (bound : ℕ) (enc : Encoder) (clk dt : Bool)
    → Running bound enc
    → Running bound (record enc { last_clk = clk; last_dt = dt })
seen-Running bound enc clk dt r = record {
  open_handle = r.open_handle;
  steps_fit = r.steps_fit;
  below = r.below;
  above = r.above;
  position_fits = r.position_fits;
}

-- The levels seen last play no part in the count.
recount :
    (bound : ℕ) (enc : Encoder) (clk dt : Bool) (enc' : Encoder) (up down : ℕ)
    → Counted bound (record enc { last_clk = clk; last_dt = dt }) enc' up down
    → Counted bound enc enc' up down
recount bound enc clk dt enc' up down c = record {
  same_detent = c.same_detent;
  running = c.running;
  balance = c.balance;
}

gray_delta-Step :
    (c d c' d' : Bool)
    → Step
        (gray_delta (level_state c d) (level_state c' d'))
        (clockwise (level_state c d) (level_state c' d'))
        (clockwise (level_state c' d') (level_state c d))
unfolding gray_delta clockwise next_clockwise
gray_delta-Step false false false false = record { ups = refl; downs = refl; one = omega arith }
gray_delta-Step false false false true = record { ups = refl; downs = refl; one = omega arith }
gray_delta-Step false false true false = record { ups = refl; downs = refl; one = omega arith }
gray_delta-Step false false true true = record { ups = refl; downs = refl; one = omega arith }
gray_delta-Step false true false false = record { ups = refl; downs = refl; one = omega arith }
gray_delta-Step false true false true = record { ups = refl; downs = refl; one = omega arith }
gray_delta-Step false true true false = record { ups = refl; downs = refl; one = omega arith }
gray_delta-Step false true true true = record { ups = refl; downs = refl; one = omega arith }
gray_delta-Step true false false false = record { ups = refl; downs = refl; one = omega arith }
gray_delta-Step true false false true = record { ups = refl; downs = refl; one = omega arith }
gray_delta-Step true false true false = record { ups = refl; downs = refl; one = omega arith }
gray_delta-Step true false true true = record { ups = refl; downs = refl; one = omega arith }
gray_delta-Step true true false false = record { ups = refl; downs = refl; one = omega arith }
gray_delta-Step true true false true = record { ups = refl; downs = refl; one = omega arith }
gray_delta-Step true true true false = record { ups = refl; downs = refl; one = omega arith }
gray_delta-Step true true true true = record { ups = refl; downs = refl; one = omega arith }

clockwise_self : (c d : Bool) → clockwise (level_state c d) (level_state c d) ≡ 0
unfolding clockwise next_clockwise
clockwise_self true true = refl
clockwise_self true false = refl
clockwise_self false true = refl
clockwise_self false false = refl

no-Step : (d : ℤ) (up down : ℕ) → Step d up down → is_zero d ≡ true → (up ≡ 0) × (down ≡ 0)
no-Step (pos n) up down st z = (ground (arith, z, st.ups), omega (arith, st.downs))
no-Step (negsuc n) up down st z = absurd (ground (arith, z))

-- Nothing counted: only the levels differ.
pub nothing-Counted :
    (bound : ℕ) (enc : Encoder) (clk dt : Bool)
    → Running bound enc
    → Counted bound enc (record enc { last_clk = clk; last_dt = dt }) 0 0
nothing-Counted bound enc clk dt r = record {
  same_detent = refl;
  running = record {
    open_handle = r.open_handle;
    steps_fit = r.steps_fit;
    below = r.below;
    above = r.above;
    position_fits = r.position_fits;
  };
  balance = Balance-refl (enc.steps_per_detent) (enc.position) (enc.gpio_accum);
}

pub widen :
    (bound bound' : ℕ) (enc enc' : Encoder) (up down : ℕ)
    → bound ≤ bound'
    → Counted bound enc enc' up down
    → Counted bound' enc enc' up down
widen bound bound' enc enc' up down h c = record {
  same_detent = c.same_detent;
  running = record {
    open_handle = c.running.open_handle;
    steps_fit = c.running.steps_fit;
    below = c.running.below;
    above = c.running.above;
    position_fits = omega (arith, h, c.running.position_fits);
  };
  balance = c.balance;
}

apply_levels-Counted :
    (bound : ℕ) (enc : Encoder) (clk dt : Bool)
    → bound < 2147483648
    → Running bound enc
    → Counted
        (suc bound)
        enc
        (apply_levels clk dt enc).0
        (clockwise (level_state enc.last_clk enc.last_dt) (level_state clk dt))
        (clockwise (level_state clk dt) (level_state enc.last_clk enc.last_dt))
unfolding apply_levels
apply_levels-Counted bound enc clk dt small r =
    let st = gray_delta-Step enc.last_clk enc.last_dt clk dt in
    let d = gray_delta (level_state enc.last_clk enc.last_dt) (level_state clk dt) in
    elim (Bool-cases (is_zero d)) [
      | inl z ↦
          let (u, w) = no-Step d _ _ st z in
          rw (z, u, w)
            (widen bound (suc bound) enc _ 0 0 (omega arith) (nothing-Counted bound enc clk dt r))
      | inr z ↦ rw z (
          recount (suc bound) enc clk dt _ _ _ (
            count_detent-Counted bound (record enc { last_clk = clk; last_dt = dt }) d _ _ small
              (seen-Running bound enc clk dt r) st))
    ]

pub tick-Counted :
    (bound : ℕ) (enc : Encoder) (clk dt : Bool)
    → bound < 2147483648
    → Running bound enc
    → Counted
        (suc bound)
        enc
        (gpio_debounce_timer_cb (some clk) (some dt) enc).0
        (clockwise (level_state enc.last_clk enc.last_dt) (level_state clk dt))
        (clockwise (level_state clk dt) (level_state enc.last_clk enc.last_dt))
unfolding gpio_debounce_timer_cb
tick-Counted bound enc clk dt small r =
    let P : Encoder × List Invocation → Type 0 = (λ x.
      Counted (suc bound) enc x.0
        (clockwise (level_state enc.last_clk enc.last_dt) (level_state clk dt))
        (clockwise (level_state clk dt) (level_state enc.last_clk enc.last_dt))) in
    if_false P (enc.closing) _ _ (r.open_handle)
      (elim (Bool-cases (level_state enc.last_clk enc.last_dt == level_state clk dt)) [
        | inl e ↦
            let k : level_state enc.last_clk enc.last_dt ≡ level_state clk dt = ground (arith, e) in
            let up : clockwise (level_state enc.last_clk enc.last_dt) (level_state clk dt) ≡ 0 =
              rw k (clockwise_self clk dt) in
            let down : clockwise (level_state clk dt) (level_state enc.last_clk enc.last_dt) ≡ 0 =
              rw k (clockwise_self clk dt) in
            if_true P (level_state enc.last_clk enc.last_dt == level_state clk dt) _ _ e (
              rw (up, down)
                (widen bound (suc bound) enc enc 0 0 (omega arith)
                  (nothing-Counted bound enc (enc.last_clk) (enc.last_dt) r)))
        | inr e ↦
            if_false P (level_state enc.last_clk enc.last_dt == level_state clk dt) _ _ e
              (apply_levels-Counted bound enc clk dt small r)
      ])

apply_levels-levels :
    (enc : Encoder) (clk dt : Bool)
    → level_state (apply_levels clk dt enc).0.last_clk (apply_levels clk dt enc).0.last_dt
      ≡ level_state clk dt
unfolding apply_levels
apply_levels-levels enc clk dt =
    let d = gray_delta (level_state enc.last_clk enc.last_dt) (level_state clk dt) in
    let (c, t) =
      count_detent-levels
        (record enc { last_clk = clk; last_dt = dt; gpio_accum = to_int8 (enc.gpio_accum +ℤ d) }) in
    if_both
      (λ (x : Encoder × List Invocation). level_state x.0.last_clk x.0.last_dt ≡ level_state clk dt)
      (is_zero d) refl (ap₂ level_state c t)

pub tick-levels :
    (enc : Encoder) (clk dt : Bool)
    → enc.closing ≡ false
    → level_state
        (gpio_debounce_timer_cb (some clk) (some dt) enc).0.last_clk
        (gpio_debounce_timer_cb (some clk) (some dt) enc).0.last_dt
      ≡ level_state clk dt
unfolding gpio_debounce_timer_cb
tick-levels enc clk dt open_handle =
    let P : Encoder × List Invocation → Type 0 =
      (λ x. level_state x.0.last_clk x.0.last_dt ≡ level_state clk dt) in
    if_false P (enc.closing) _ _ open_handle
      (elim (Bool-cases (level_state enc.last_clk enc.last_dt == level_state clk dt)) [
        | inl e ↦
            if_true P (level_state enc.last_clk enc.last_dt == level_state clk dt) _ _ e
              (ground (arith, e))
        | inr e ↦
            if_false P (level_state enc.last_clk enc.last_dt == level_state clk dt) _ _ e
              (apply_levels-levels enc clk dt)
      ])
