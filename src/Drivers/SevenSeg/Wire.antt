-- ===== src/Drivers/SevenSeg/Wire.antt =====
-- What components/blusys/src/drivers/seven_seg.c sends: the MAX7219 registers, the 74HC595
-- bit-bang, and the multiplexing callback.
use blusys.Base.{
  ℕ, zero, suc, ◌+◌, ◌-◌, ◌*◌, ◌/◌, ◌%◌, ◌^◌, Bool, true, false, bit_and, bit_or, List, ◌==◌,
  if◌then◌else◌, get_or,
}
use blusys.Base.Int.{pos, negsuc}
use blusys.Hal.Error.{BlusysErr, ok, translate_esp_err}
use blusys.Drivers.SevenSeg.Defs.{
  Driver, gpio, Display, Pin, set_level, set_output, gpio_reset, spi_transmit, Trace, Env, ◌▷◌,
  reg_digit0,
}

-- INTERNAL_TO_MAX7219
unfoldable pub internal_to_max7219 : ℕ → ℕ
internal_to_max7219 b = bit_or (bit_and b 0x7F * 2 % 2 ^ 8) (bit_and (b / 2 ^ 7) 1)

abbrev pub is_unwired : Pin → Bool
is_unwired (pos n) = false
is_unwired (negsuc n) = n == 0

-- (byte >> i) & 1
abbrev pub bit_of : ℕ → ℕ → ℕ
bit_of byte i = byte / 2 ^ i % 2

module _ (env : Env) where
  unfoldable pub max7219_write : ℕ → ℕ → Trace → BlusysErr × Trace
  max7219_write reg value t =
      (translate_esp_err (env.esp t (spi_transmit reg value)), t ▷ spi_transmit reg value)

  -- The loop of `max7219_flush` from digit i, with the rounds left. The register is a uint8_t.
  unfoldable pub flush_from : ℕ → ℕ → List ℕ → Trace → BlusysErr × Trace
  flush_from zero i buf t = (ok, t)
  flush_from (suc n) i buf t =
      let (err, t') =
        max7219_write ((reg_digit0 + i) % 2 ^ 8) (internal_to_max7219 (get_or buf i 0)) t in
      let rest = flush_from n (i + 1) buf t' in if err == ok then rest else (err, t')

  unfoldable pub max7219_flush : Display → Trace → BlusysErr × Trace
  max7219_flush d t = flush_from d.digit_count 0 d.buf t

  unfoldable pub configure_output : Pin → Trace → BlusysErr × Trace
  configure_output pin t =
      if is_unwired pin then (ok, t) else (env.err t (set_output pin), t ▷ set_output pin)

-- The loop `for (i = 7; i >= 0; i--)`, with i + 1 rounds left.
unfoldable pub shift_bits : ℕ → Pin → Pin → ℕ → Trace → Trace
shift_bits zero data_pin clk_pin byte t = t
shift_bits (suc i) data_pin clk_pin byte t =
    shift_bits i data_pin clk_pin byte
      (t ▷ set_level data_pin (bit_of byte i) ▷ set_level clk_pin 1 ▷ set_level clk_pin 0)

unfoldable pub hc595_shift_out : Display → ℕ → Trace → Trace
hc595_shift_out d byte t =
    shift_bits 8 d.data_pin d.clk_pin byte t ▷ set_level d.latch_pin 1 ▷ set_level d.latch_pin 0

abbrev pub inactive_common : Bool → ℕ
inactive_common anode = if anode then 0 else 1

abbrev pub active_common : Bool → ℕ
active_common anode = if anode then 1 else 0

-- The segment loop of `mux_timer_cb` for the GPIO driver, from segment i.
unfoldable pub drive_segments : ℕ → ℕ → List Pin → Bool → ℕ → Trace → Trace
drive_segments zero i pins anode segs t = t
drive_segments (suc n) i pins anode segs t =
    let pin = get_or pins i (negsuc 0) in
    let level = if anode then (if bit_of segs i == 0 then 1 else 0) else bit_of segs i in
    drive_segments n (i + 1) pins anode segs (if is_unwired pin then t else t ▷ set_level pin level)

abbrev is_gpio : Driver → Bool
is_gpio gpio = true
is_gpio _ = false

unfoldable pub mux_timer_cb : Display → Trace → Display × Trace
mux_timer_cb d t =
    let cur = d.active_digit in
    let next = (cur + 1) % d.digit_count % 2 ^ 8 in
    let segs = get_or d.buf next 0 in
    let off =
      t ▷ set_level (get_or d.common_pins cur (negsuc 0)) (inactive_common d.common_anode) in
    let driven =
      if is_gpio d.driver
      then drive_segments 8 0 d.seg_pins d.common_anode segs off
      else hc595_shift_out d (if d.common_anode then 255 - segs else segs) off in
    (
      record d { active_digit = next },
      driven ▷ set_level (get_or d.common_pins next (negsuc 0)) (active_common d.common_anode),
    )

unfoldable pub reset_output : Pin → Trace → Trace
reset_output pin t = if is_unwired pin then t else t ▷ gpio_reset pin
