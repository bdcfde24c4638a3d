-- ===== src/Drivers/SevenSeg/Tests.antt =====
-- The seven-segment theorems at concrete inputs, and runs of the code.
use blusys.Base.{
  ℕ, suc, ◌+◌, ◌<◌, ◌≤◌, ◌≡◌, refl, true, false, none, some, List, [], ◌∷◌, arith, get_or,
  replicate, ◌^◌, ◌/◌, ◌%◌, ◌↔◌,
}
use blusys.Base.Bits.{test_bit}
use blusys.Base.Int.{pos, negsuc}
use blusys.Hal.Error.{ok, EspErr, translate_esp_err}
use blusys.Drivers.SevenSeg.Defs.{Display, max7219, Env, segment_at}
use blusys.Drivers.SevenSeg.Render.{
  render_int, render_hex, filler, filled, fill_digits, put_minus, layout_int, render_magnitude,
  decimal_limit, fill_hex,
}
use blusys.Drivers.SevenSeg.Wire.{max7219_flush, flush_from, max7219_write}
use blusys.Drivers.SevenSeg.Life.{no_pin}
use blusys.Drivers.SevenSeg.Api.{seven_seg_write_int, seven_seg_set_dp}
use blusys.Drivers.SevenSeg.Digits.{fits, render_int_refuses, shown_at}
use blusys.Drivers.SevenSeg.Hex.{render_hex_lem}
use blusys.Drivers.SevenSeg.Updates.{
  IsOpen, seven_seg_write_int-shown_at, render_int-leftmost, seven_seg_set_dp_lem,
}

-- An SDK that never fails.
abbrev sdk : Env
sdk = record {
  esp = λ t c. EspErr.esp_ok;
  err = λ t c. ok;
  pin_valid = λ p. true;
  has_memory = true;
}

abbrev display : Display
display = record {
  driver = max7219;
  digit_count = 4;
  buf = replicate 8 0;
  common_pins = replicate 8 no_pin;
  common_anode = false;
  has_timer = false;
  active_digit = 0;
  seg_pins = replicate 8 no_pin;
  data_pin = pos 0;
  clk_pin = pos 0;
  latch_pin = pos 0;
  has_spi_dev = true;
}

display-IsOpen : IsOpen display
display-IsOpen = omega arith

-- -12 on four digits with leading zeros is "0-12".
minus_inside :
    render_int 4 (negsuc 11) true
    ≡ some (0x3F ∷ 0x40 ∷ 0x06 ∷ 0x5B ∷ 0x3F ∷ 0x3F ∷ 0x3F ∷ 0x3F ∷ [])
unfolding render_int render_magnitude layout_int filled filler fill_digits put_minus decimal_limit
    segment_at
minus_inside = refl

render_int_refuses_example : (render_int 2 (negsuc 9) false ≡ none) ↔ (fits 2 (negsuc 9) ≡ false)
render_int_refuses_example = render_int_refuses 2 (negsuc 9) false (omega arith)

seven_seg_write_int-shown_at_example :
    (d' : Display) × ((seven_seg_write_int sdk (negsuc 11) true (some display) []).1 ≡ some d')
    × ((p k : ℕ) → p + suc k ≡ 4 → get_or d'.buf p 0 ≡ shown_at true 12 true k)
seven_seg_write_int-shown_at_example =
    seven_seg_write_int-shown_at sdk display [] (negsuc 11) true display-IsOpen refl refl

abbrev minus_twelve : List ℕ
minus_twelve = 0x3F ∷ 0x40 ∷ 0x06 ∷ 0x5B ∷ 0x3F ∷ 0x3F ∷ 0x3F ∷ 0x3F ∷ []

render_int-leftmost_example : get_or minus_twelve 0 0 ≡ filler true
render_int-leftmost_example = render_int-leftmost 2 11 true (omega arith) (omega arith) minus_inside

render_hex_lem_example :
    (16 ^ 2 ≤ 0xAB → render_hex (replicate 8 7) 2 0xAB ≡ none)
    × (0xAB < 16 ^ 2
        → (render_hex (replicate 8 7) 2 0xAB ≡ some (fill_hex 2 0xAB (replicate 8 7)))
          × ((p k : ℕ)
              → p + suc k ≡ 2
              → get_or (fill_hex 2 0xAB (replicate 8 7)) p 0 ≡ segment_at (0xAB / 16 ^ k % 16)))
render_hex_lem_example = render_hex_lem (replicate 8 7) 2 0xAB (omega arith) refl

sdk_flush : (max7219_flush sdk display []).0 ≡ ok
unfolding max7219_flush flush_from max7219_write translate_esp_err
sdk_flush = refl

seven_seg_set_dp_lem_example :
    (d' : Display) × ((seven_seg_set_dp sdk 5 (some display) []).1 ≡ some d')
    × ((k : ℕ)
        → k < 4
        → (test_bit (get_or d'.buf k 0) 7 ≡ test_bit 5 k)
          × ((j : ℕ)
              → j < 7
              → test_bit (get_or d'.buf k 0) j ≡ test_bit (get_or (replicate 8 0) k 0) j))
seven_seg_set_dp_lem_example = seven_seg_set_dp_lem sdk display [] 5 display-IsOpen refl
