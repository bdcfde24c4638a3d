-- ===== src/Drivers/Encoder/Wide.antt =====
-- The decoder of components/blusys/src/drivers/encoder.c with more steps per detent than its int8_t
-- accumulator holds.
use blusys.Base.{
  ◌≤◌, ◌≡◌, ◌⊎◌, refl, Bool, false, Option, none, some, List, arith, ◌==◌, leb, inl, inr, if_both,
  if_false,
}
use blusys.Base.Int.{ℤ, pos, pos_part, neg_part, ◌+ℤ◌, ◌-ℤ◌}
use blusys.Drivers.Encoder.Defs.{
  Encoder, Invocation, event_ccw, to_int8, to_int32, wrap_int, level_state, gray_delta, is_zero,
  count_detent, apply_levels, gpio_debounce_timer_cb,
}
use blusys.Drivers.Encoder.Count.{invoke_callback-Same}

-- The position stays, or turns one detent back.
abbrev pub NotUp : Encoder → Encoder × List Invocation → Type 0
NotUp enc r = (r.0.position ≡ enc.position) ⊎ (r.0.position ≡ to_int32 (enc.position -ℤ pos 1))

small_up : (v : ℤ) → pos_part (to_int8 v) ≤ 127
unfolding wrap_int
small_up v = ground arith

count_detent-NotUp :
    (enc : Encoder) (v : ℤ)
    → 128 ≤ enc.steps_per_detent
    → NotUp enc (count_detent (record enc { gpio_accum = to_int8 v }))
unfolding count_detent
count_detent-NotUp enc v h =
    let never : leb enc.steps_per_detent (pos_part (to_int8 v)) ≡ false =
      ground (arith, h, small_up v) in
    if_false (NotUp enc) _ _ _ never (
      if_both (NotUp enc) (leb enc.steps_per_detent (neg_part (to_int8 v)))
        (inr (
          (invoke_callback-Same event_ccw (record enc {
            gpio_accum = pos 0;
            position = to_int32 (enc.position -ℤ pos 1);
          })).same_position))
        (inl refl))

-- With 128 or more steps per detent the timer never turns the position up, whatever levels it reads,
-- since the accumulator stays below 128.
pub gpio_debounce_timer_cb-NotUp :
    (clk dt : Option Bool) (enc : Encoder)
    → 128 ≤ enc.steps_per_detent
    → NotUp enc (gpio_debounce_timer_cb clk dt enc)
unfolding gpio_debounce_timer_cb apply_levels
gpio_debounce_timer_cb-NotUp none dt enc h = inl refl
gpio_debounce_timer_cb-NotUp (some clk) none enc h = inl refl
gpio_debounce_timer_cb-NotUp (some clk) (some dt) enc h =
    if_both (NotUp enc) (enc.closing) (inl refl) (
      if_both (NotUp enc) (level_state enc.last_clk enc.last_dt == level_state clk dt) (inl refl) (
        if_both (NotUp enc)
          (is_zero (gray_delta (level_state enc.last_clk enc.last_dt) (level_state clk dt)))
          (inl refl)
          (count_detent-NotUp (record enc { last_clk = clk; last_dt = dt })
            (enc.gpio_accum
              +ℤ gray_delta (level_state enc.last_clk enc.last_dt) (level_state clk dt))
            h)))
