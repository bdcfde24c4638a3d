-- ===== src/Drivers/Encoder/Tests.antt =====
-- The theorems about components/blusys/src/drivers/encoder.c at concrete inputs.
use blusys.Base.{◌≡◌, refl, true, false, none, some, List, [], ◌∷◌, arith, length, ◌+◌}
use blusys.Base.Int.{pos, negsuc, ◌+ℤ◌, ◌-ℤ◌}
use blusys.Hal.Lifecycle.{try_enter, leave}
use blusys.Drivers.Encoder.Pcnt.{
  PcntEncoder, PcntEvent, reaches, fires, net, run_pcnt, run_pcnt-position,
}
use blusys.Drivers.Encoder.Defs.{
  Encoder, event_cw, level_state, wrap_int, gray_delta, invoke_callback, count_detent, apply_levels,
  gpio_debounce_timer_cb,
}
use blusys.Drivers.Encoder.Count.{Counted}
use blusys.Drivers.Encoder.Run.{Readings, steps_up, steps_down, run, run-Counted}
use blusys.Drivers.Encoder.Wide.{NotUp, gpio_debounce_timer_cb-NotUp}

-- A handle at rest with both levels high, and one whose accumulator is full.
abbrev at_rest : Encoder
at_rest = record {
  steps_per_detent = 4;
  callback = some 7;
  callback_active = 0;
  position = pos 0;
  closing = false;
  last_clk = true;
  last_dt = true;
  gpio_accum = pos 0;
}

abbrev wide : Encoder
wide = record at_rest { steps_per_detent = 128; gpio_accum = pos 127 }

-- One detent clockwise, with a reading that fails in between.
abbrev one_turn : Readings
one_turn =
    (some true, some false)
    ∷ (some false, none)
    ∷ (some false, some false)
    ∷ (some false, some true)
    ∷ (some true, some true)
    ∷ []

one_turn-position : (run one_turn at_rest).position ≡ pos 1
unfolding run gpio_debounce_timer_cb apply_levels count_detent invoke_callback try_enter leave
    gray_delta wrap_int ◌+ℤ◌
one_turn-position = refl

wide-position : (gpio_debounce_timer_cb (some true) (some false) wide).0.position ≡ negsuc 0
unfolding gpio_debounce_timer_cb apply_levels count_detent invoke_callback try_enter leave
    gray_delta wrap_int ◌+ℤ◌ ◌-ℤ◌
wide-position = refl

run-Counted_example :
    Counted
      (1 + length one_turn)
      at_rest
      (run one_turn at_rest)
      (steps_up (level_state true true) one_turn)
      (steps_down (level_state true true) one_turn)
run-Counted_example = run-Counted one_turn 1 at_rest (omega arith) (record {
  open_handle = refl;
  steps_fit = omega arith;
  below = omega arith;
  above = omega arith;
  position_fits = omega arith;
})

gpio_debounce_timer_cb-NotUp_example :
    NotUp wide (gpio_debounce_timer_cb (some true) (some false) wide)
gpio_debounce_timer_cb-NotUp_example =
    gpio_debounce_timer_cb-NotUp (some true) (some false) wide (omega arith)

-- Two detents up, a run of the timer, and one down.
abbrev turns : List PcntEvent
turns = reaches (pos 4) ∷ reaches (pos 4) ∷ fires ∷ reaches (negsuc 3) ∷ []

abbrev counter : PcntEncoder
counter = record {
  enc = record {
    steps_per_detent = 4;
    callback = some 9;
    callback_active = 0;
    position = pos 5;
    closing = false;
    last_clk = false;
    last_dt = false;
    gpio_accum = pos 0;
  };
  pending_event = event_cw;
  timer_armed = false;
}

run_pcnt-position_example : (run_pcnt turns counter).0.enc.position ≡ pos 5 +ℤ net turns
run_pcnt-position_example = run_pcnt-position turns counter refl (omega arith)
