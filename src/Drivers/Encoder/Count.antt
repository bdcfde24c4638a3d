-- ===== src/Drivers/Encoder/Count.antt =====
-- The decoder of components/blusys/src/drivers/encoder.c counts the steps of the Gray sequence.
use native.Mathlib.Nat.{mul-add}
use blusys.Base.{
  ◌∙◌, ℕ, suc, ◌+◌, ◌*◌, ◌≤◌, ◌<◌, ◌≡◌, ◌⊎◌, refl, ap, false, arith, leb, Bool-cases, inl, inr,
  tests,
}
use blusys.Base.Int.{ℤ, pos, negsuc, pos_part, neg_part, ◌+ℤ◌, ◌-ℤ◌, +ℤ_parts, -ℤ_parts}
use blusys.Hal.Lifecycle.{try_enter}
use blusys.Drivers.Encoder.Defs.{
  Event, event_cw, event_ccw, Encoder, to_int8, to_int32, wrap_int, invoke_callback, count_detent,
}

scale_up : (n x a y b : ℕ) → x + a ≡ y + b + 1 → n * x + n * a ≡ n * y + n * b + n
scale_up n x a y b h =
    let e = ap (λ (t : ℕ). n * t) h in
    omega (arith, e, mul-add n x a, mul-add n y b, mul-add n (y + b) 1)

-- The steps up and down between two counts of n steps each, with the steps left over.
pub Balance : (n : ℕ) (p a p' a' : ℤ) (up down : ℕ) → Type 0
Balance n p a p' a' up down =
    n * pos_part p' + pos_part a' + n * neg_part p + neg_part a + down
    ≡ n * neg_part p' + neg_part a' + n * pos_part p + pos_part a + up

pub Balance-refl : (n : ℕ) (p a : ℤ) → Balance n p a p a 0 0
unfolding Balance
Balance-refl n p a = omega arith

pub Balance-trans :
    (n : ℕ) (p a p1 a1 p2 a2 : ℤ) (up down up' down' : ℕ)
    → Balance n p a p1 a1 up down
    → Balance n p1 a1 p2 a2 up' down'
    → Balance n p a p2 a2 (up + up') (down + down')
unfolding Balance
Balance-trans n p a p1 a1 p2 a2 up down up' down' h k = omega (arith, h, k)

wrap_int-fits : (half : ℕ) (v : ℤ) → pos_part v < half → neg_part v ≤ half → wrap_int half v ≡ v
unfolding wrap_int
wrap_int-fits half (pos n) h k = ground (arith, h)
wrap_int-fits half (negsuc n) h k = ground (arith, k)

-- A count is not both above and below zero.
one_sided : (v : ℤ) → (pos_part v ≡ 0) ⊎ (neg_part v ≡ 0)
one_sided (pos n) = inr refl
one_sided (negsuc n) = inl refl

-- A step d is one up, one down or none.
pub record Step (d : ℤ) (up down : ℕ) : Type 0 where
  pub ups : pos_part d ≡ up
  pub downs : neg_part d ≡ down
  pub one : up + down ≤ 1

-- The rest after a step, without a full detent.
Balance-rest : (n : ℕ) (p a d : ℤ) (up down : ℕ) → Step d up down → Balance n p a p (a +ℤ d) up down
unfolding Balance
Balance-rest n p a d up down s = omega (arith, s.ups, s.downs, +ℤ_parts a d)

-- A full detent up, and down, with nothing left over.
Balance-up :
    (n : ℕ) (p a d : ℤ) (up down : ℕ)
    → pos_part a < n
    → Step d up down
    → n ≤ pos_part (a +ℤ d)
    → Balance n p a (p +ℤ pos 1) (pos 0) up down
unfolding Balance
Balance-up n p a d up down h st k =
    let s =
      scale_up n (pos_part (p +ℤ pos 1)) (neg_part p) (neg_part (p +ℤ pos 1)) (pos_part p)
        (omega (arith, +ℤ_parts p (pos 1))) in
    omega (arith, s, +ℤ_parts a d, one_sided a, one_sided (a +ℤ d), st.ups, st.downs, st.one)

Balance-down :
    (n : ℕ) (p a d : ℤ) (up down : ℕ)
    → neg_part a < n
    → Step d up down
    → n ≤ neg_part (a +ℤ d)
    → Balance n p a (p -ℤ pos 1) (pos 0) up down
unfolding Balance
Balance-down n p a d up down h st k =
    let s =
      scale_up n (neg_part (p -ℤ pos 1)) (pos_part p) (pos_part (p -ℤ pos 1)) (neg_part p)
        (omega (arith, -ℤ_parts p (pos 1))) in
    omega (arith, s, +ℤ_parts a d, one_sided a, one_sided (a +ℤ d), st.ups, st.downs, st.one)

-- What invoking a callback keeps.
pub record Same (a b : Encoder) : Type 0 where
  pub same_steps : a.steps_per_detent ≡ b.steps_per_detent
  pub same_position : a.position ≡ b.position
  pub same_accum : a.gpio_accum ≡ b.gpio_accum
  pub same_closing : a.closing ≡ b.closing
  pub same_clk : a.last_clk ≡ b.last_clk
  pub same_dt : a.last_dt ≡ b.last_dt

pub invoke_callback-Same :
    (event : Event) (enc : Encoder) → Same ((invoke_callback event enc).0) enc
unfolding invoke_callback try_enter
invoke_callback-Same event enc = ground arith

-- A decoder that runs, whose steps fit the int8_t, and whose position is below a bound.
pub record Running (bound : ℕ) (enc : Encoder) : Type 0 where
  pub open_handle : enc.closing ≡ false
  pub steps_fit : enc.steps_per_detent < 128
  pub below : pos_part enc.gpio_accum < enc.steps_per_detent
  pub above : neg_part enc.gpio_accum < enc.steps_per_detent
  pub position_fits : pos_part enc.position + neg_part enc.position < bound

-- From one state of a decoder to another with steps up and down between.
pub record Counted (bound : ℕ) (enc enc' : Encoder) (up down : ℕ) : Type 0 where
  pub same_detent : enc'.steps_per_detent ≡ enc.steps_per_detent
  pub running : Running bound enc'
  pub balance :
      Balance enc.steps_per_detent enc.position enc.gpio_accum enc'.position enc'.gpio_accum up down

Counted-Same :
    (bound : ℕ) (enc e1 e2 : Encoder) (up down : ℕ)
    → Same e1 e2
    → Counted bound enc e2 up down
    → Counted bound enc e1 up down
Counted-Same bound enc e1 e2 up down s c = record {
  same_detent = s.same_steps ∙ c.same_detent;
  running = record {
    open_handle = s.same_closing ∙ c.running.open_handle;
    steps_fit = rw s.same_steps c.running.steps_fit;
    below = rw (s.same_steps, s.same_accum) c.running.below;
    above = rw (s.same_steps, s.same_accum) c.running.above;
    position_fits = rw s.same_position c.running.position_fits;
  };
  balance = rw (s.same_position, s.same_accum) c.balance;
}

accum_fits :
    (n : ℕ) (a d : ℤ) (up down : ℕ)
    → n < 128
    → pos_part a < n
    → neg_part a < n
    → Step d up down
    → to_int8 (a +ℤ d) ≡ a +ℤ d
accum_fits n a d up down hn h k st =
    wrap_int-fits 128 (a +ℤ d)
      (omega (arith, +ℤ_parts a d, one_sided (a +ℤ d), one_sided a, st.ups, st.downs, st.one))
      (omega (arith, +ℤ_parts a d, one_sided (a +ℤ d), one_sided a, st.ups, st.downs, st.one))

pub turn_up-fits :
    (bound : ℕ) (p : ℤ)
    → bound < 2147483648
    → pos_part p + neg_part p < bound
    → (to_int32 (p +ℤ pos 1) ≡ p +ℤ pos 1)
      × (pos_part (p +ℤ pos 1) + neg_part (p +ℤ pos 1) < suc bound)
turn_up-fits bound p small h = (
  wrap_int-fits 2147483648 (p +ℤ pos 1)
      (omega (arith, +ℤ_parts p (pos 1), one_sided (p +ℤ pos 1), one_sided p))
      (omega (arith, +ℤ_parts p (pos 1), one_sided (p +ℤ pos 1), one_sided p)),
  omega (arith, +ℤ_parts p (pos 1), one_sided (p +ℤ pos 1), one_sided p),
)

pub turn_down-fits :
    (bound : ℕ) (p : ℤ)
    → bound < 2147483648
    → pos_part p + neg_part p < bound
    → (to_int32 (p -ℤ pos 1) ≡ p -ℤ pos 1)
      × (pos_part (p -ℤ pos 1) + neg_part (p -ℤ pos 1) < suc bound)
turn_down-fits bound p small h = (
  wrap_int-fits 2147483648 (p -ℤ pos 1)
      (omega (arith, -ℤ_parts p (pos 1), one_sided (p -ℤ pos 1), one_sided p))
      (omega (arith, -ℤ_parts p (pos 1), one_sided (p -ℤ pos 1), one_sided p)),
  omega (arith, -ℤ_parts p (pos 1), one_sided (p -ℤ pos 1), one_sided p),
)

pub count_detent-Counted :
    (bound : ℕ) (enc : Encoder) (d : ℤ) (up down : ℕ)
    → bound < 2147483648
    → Running bound enc
    → Step d up down
    → Counted
        (suc bound)
        enc
        (count_detent (record enc { gpio_accum = to_int8 (enc.gpio_accum +ℤ d) })).0
        up
        down
unfolding count_detent
count_detent-Counted bound enc d up down small r st =
    let n = enc.steps_per_detent in
    let a = enc.gpio_accum in
    let p = enc.position in
    let (up_eq, up_fits) = turn_up-fits bound p small r.position_fits in
    let (down_eq, down_fits) = turn_down-fits bound p small r.position_fits in
    rw (accum_fits n a d up down r.steps_fit r.below r.above st)
      (elim (Bool-cases (leb n (pos_part (a +ℤ d)))) [
        | inl e ↦
            rw (e, up_eq)
              (Counted-Same (suc bound) enc _ _ up down (invoke_callback-Same event_cw _) (record {
                same_detent = refl;
                running = record {
                  open_handle = r.open_handle;
                  steps_fit = r.steps_fit;
                  below = omega (arith, r.below);
                  above = omega (arith, r.below);
                  position_fits = up_fits;
                };
                balance = Balance-up n p a d up down r.below st (omega (tests, e));
              }))
        | inr e ↦ rw e (elim (Bool-cases (leb n (neg_part (a +ℤ d)))) [
          | inl k ↦
              rw (k, down_eq)
                (Counted-Same (suc bound) enc _ _ up down (invoke_callback-Same event_ccw _)
                  (record {
                    same_detent = refl;
                    running = record {
                      open_handle = r.open_handle;
                      steps_fit = r.steps_fit;
                      below = omega (arith, r.below);
                      above = omega (arith, r.below);
                      position_fits = down_fits;
                    };
                    balance = Balance-down n p a d up down r.above st (omega (tests, k));
                  }))
          | inr k ↦ rw k (record {
            same_detent = refl;
            running = record {
              open_handle = r.open_handle;
              steps_fit = r.steps_fit;
              below = ground (arith, e);
              above = ground (arith, k);
              position_fits = omega (arith, r.position_fits);
            };
            balance = Balance-rest n p a d up down st;
          })
        ])
      ])

-- Counting leaves the levels.
pub count_detent-levels :
    (enc : Encoder)
    → ((count_detent enc).0.last_clk ≡ enc.last_clk) × ((count_detent enc).0.last_dt ≡ enc.last_dt)
unfolding count_detent
count_detent-levels enc =
    let up =
      invoke_callback-Same event_cw
        (record enc { gpio_accum = pos 0; position = to_int32 (enc.position +ℤ pos 1) }) in
    let down =
      invoke_callback-Same event_ccw
        (record enc { gpio_accum = pos 0; position = to_int32 (enc.position -ℤ pos 1) }) in
    ground (arith, up, down)
