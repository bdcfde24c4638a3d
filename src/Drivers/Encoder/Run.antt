-- ===== src/Drivers/Encoder/Run.antt =====
-- Runs of the debounce timer of components/blusys/src/drivers/encoder.c: the position and the steps
-- left over are the steps of the Gray sequence that the levels have made.
use blusys.Base.{
  ◌∙◌, ℕ, suc, ◌+◌, ◌≤◌, ◌≡◌, refl, Bool, Option, none, some, List, [], ◌∷◌, arith, length,
}
use blusys.Drivers.Encoder.Defs.{Encoder, level_state, gpio_debounce_timer_cb}
use blusys.Drivers.Encoder.Count.{Balance-trans, Running, Counted}
use blusys.Drivers.Encoder.Tick.{clockwise, tick-Counted, tick-levels, nothing-Counted, widen}

-- Readings of the two pins; one that fails is none.
abbrev pub Readings : Type 0
Readings = List (Option Bool × Option Bool)

-- The steps clockwise, and against, that readings make from the levels seen last.
unfoldable pub steps_up : ℕ → Readings → ℕ
steps_up old [] = 0
steps_up old ((some clk, some dt) ∷ rest) =
    clockwise old (level_state clk dt) + steps_up (level_state clk dt) rest
steps_up old (_ ∷ rest) = steps_up old rest

unfoldable pub steps_down : ℕ → Readings → ℕ
steps_down old [] = 0
steps_down old ((some clk, some dt) ∷ rest) =
    clockwise (level_state clk dt) old + steps_down (level_state clk dt) rest
steps_down old (_ ∷ rest) = steps_down old rest

unfoldable pub run : Readings → Encoder → Encoder
run [] enc = enc
run ((clk, dt) ∷ rest) enc = run rest (gpio_debounce_timer_cb clk dt enc).0

-- A reading that fails changes nothing.
failed_clk : (dt : Option Bool) (enc : Encoder) → gpio_debounce_timer_cb none dt enc ≡ (enc, [])
unfolding gpio_debounce_timer_cb
failed_clk dt enc = refl

failed_dt : (clk : Bool) (enc : Encoder) → gpio_debounce_timer_cb (some clk) none enc ≡ (enc, [])
unfolding gpio_debounce_timer_cb
failed_dt clk enc = refl

Counted-trans :
    (bound bound' : ℕ) (e e1 e2 : Encoder) (up down up' down' : ℕ)
    → Counted bound e e1 up down
    → Counted bound' e1 e2 up' down'
    → Counted bound' e e2 (up + up') (down + down')
Counted-trans bound bound' e e1 e2 up down up' down' h k = record {
  same_detent = k.same_detent ∙ h.same_detent;
  running = k.running;
  balance =
      Balance-trans (e.steps_per_detent) (e.position) (e.gpio_accum) _ _ _ _ up down up' down'
        h.balance (rw (← h.same_detent) k.balance);
}

-- While the handle is open and its steps per detent fit an int8_t, any run of readings keeps the steps
-- left over below a detent, and the steps per detent times the change of the position, with the
-- change of what is left over, are the steps clockwise less the steps against; the position is
-- assumed to have room for one detent for each reading.
pub run-Counted :
    (readings : Readings) (bound : ℕ) (enc : Encoder)
    → bound + length readings ≤ 2147483648
    → Running bound enc
    → Counted
        (bound + length readings)
        enc
        (run readings enc)
        (steps_up (level_state enc.last_clk enc.last_dt) readings)
        (steps_down (level_state enc.last_clk enc.last_dt) readings)
unfolding run steps_up steps_down
run-Counted [] bound enc small r =
    widen bound (bound + 0) enc enc 0 0 (omega arith)
      (nothing-Counted bound enc (enc.last_clk) (enc.last_dt) r)
run-Counted ((none, dt) ∷ rest) bound enc small r = rw (failed_clk dt enc) (
    widen (bound + length rest) (bound + suc (length rest)) enc _ _ _ (omega arith)
      (run-Counted rest bound enc (omega (arith, small)) r))
run-Counted ((some clk, none) ∷ rest) bound enc small r = rw (failed_dt clk enc) (
    widen (bound + length rest) (bound + suc (length rest)) enc _ _ _ (omega arith)
      (run-Counted rest bound enc (omega (arith, small)) r))
run-Counted ((some clk, some dt) ∷ rest) bound enc small r =
    let t = tick-Counted bound enc clk dt (omega (arith, small)) r in
    let e1 = (gpio_debounce_timer_cb (some clk) (some dt) enc).0 in
    let k = run-Counted rest (suc bound) e1 (omega (arith, small)) t.running in
    let levels = tick-levels enc clk dt r.open_handle in
    widen (suc bound + length rest) (bound + suc (length rest)) enc _ _ _ (omega arith) (
      Counted-trans (suc bound) (suc bound + length rest) enc e1 (run rest e1) _ _ _ _ t
        (rw (← levels) k))
