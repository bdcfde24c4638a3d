-- ===== src/Drivers/LedStrip/Defs.antt =====
-- The chips, the handle and the pixel buffer of components/blusys/src/drivers/led_strip.c.
use blusys.Base.{
  ℕ, ◌+◌, ◌*◌, ◌%◌, ◌^◌, not, Option, none, some, List, ◌∷◌, ltb, ◌==◌, if◌then◌else◌, length, set,
}
use blusys.Hal.Error.{BlusysErr, ok, err_invalid_arg, err_not_supported}

-- `blusys_led_strip_type_t`.
pub data LedStripType : Type 0 where
  ws2812b : LedStripType
  sk6812_rgb : LedStripType
  sk6812_rgbw : LedStripType
  ws2811 : LedStripType
  apa106 : LedStripType

-- `led_strip_params_t`.
pub record Params : Type 0 where
  pub bit0_high : ℕ
  pub bit0_low : ℕ
  pub bit1_high : ℕ
  pub bit1_low : ℕ
  pub reset : ℕ
  pub bytes_per_pixel : ℕ
  pub r_offset : ℕ
  pub g_offset : ℕ
  pub b_offset : ℕ
  pub w_offset : ℕ

abbrev params_ws2812b : Params
params_ws2812b = record {
  bit0_high = 4;
  bit0_low = 9;
  bit1_high = 8;
  bit1_low = 5;
  reset = 600;
  bytes_per_pixel = 3;
  r_offset = 1;
  g_offset = 0;
  b_offset = 2;
  w_offset = 0;
}

abbrev params_sk6812_rgb : Params
params_sk6812_rgb = record {
  bit0_high = 3;
  bit0_low = 9;
  bit1_high = 6;
  bit1_low = 6;
  reset = 800;
  bytes_per_pixel = 3;
  r_offset = 1;
  g_offset = 0;
  b_offset = 2;
  w_offset = 0;
}

abbrev params_sk6812_rgbw : Params
params_sk6812_rgbw = record {
  bit0_high = 3;
  bit0_low = 9;
  bit1_high = 6;
  bit1_low = 6;
  reset = 800;
  bytes_per_pixel = 4;
  r_offset = 1;
  g_offset = 0;
  b_offset = 2;
  w_offset = 3;
}

abbrev params_ws2811 : Params
params_ws2811 = record {
  bit0_high = 5;
  bit0_low = 20;
  bit1_high = 12;
  bit1_low = 13;
  reset = 600;
  bytes_per_pixel = 3;
  r_offset = 0;
  g_offset = 1;
  b_offset = 2;
  w_offset = 0;
}

abbrev params_apa106 : Params
params_apa106 = record {
  bit0_high = 4;
  bit0_low = 14;
  bit1_high = 14;
  bit1_low = 4;
  reset = 600;
  bytes_per_pixel = 3;
  r_offset = 0;
  g_offset = 1;
  b_offset = 2;
  w_offset = 0;
}

-- `s_params`.
abbrev pub params_of : LedStripType → Params
params_of ws2812b = params_ws2812b
params_of sk6812_rgb = params_sk6812_rgb
params_of sk6812_rgbw = params_sk6812_rgbw
params_of ws2811 = params_ws2811
params_of apa106 = params_apa106

-- A handle. `stray_writes` are the writes that fall outside of the allocated buffer, the last one
-- first.
pub record LedStrip : Type 0 where
  pub params : Params
  pub led_count : ℕ
  pub buf : List ℕ
  pub stray_writes : List (ℕ × ℕ)

-- buf[offset] = value
unfoldable pub write_buf : ℕ → ℕ → LedStrip → LedStrip
write_buf offset value strip =
    if ltb offset (length strip.buf)
    then record strip { buf = set strip.buf offset value }
    else record strip { stray_writes = (offset, value) ∷ strip.stray_writes }

-- The start of a pixel: a product of uint32_t, which wraps.
abbrev pub pixel_start : Params → ℕ → ℕ
pixel_start p index = index * p.bytes_per_pixel % 2 ^ 32

unfoldable pub write_rgb : ℕ → ℕ → ℕ → ℕ → LedStrip → LedStrip
write_rgb index r g b strip =
    let p = strip.params in
    let pixel = pixel_start p index in
    write_buf (pixel + p.b_offset) b
      (write_buf (pixel + p.g_offset) g (write_buf (pixel + p.r_offset) r strip))

unfoldable pub write_white : ℕ → ℕ → LedStrip → LedStrip
write_white index w strip =
    write_buf (pixel_start strip.params index + strip.params.w_offset) w strip

-- `blusys_led_strip_set_pixel`
unfoldable pub set_pixel : Option LedStrip → ℕ → ℕ → ℕ → ℕ → BlusysErr × Option LedStrip
set_pixel none index r g b = (err_invalid_arg, none)
set_pixel (some strip) index r g b =
    let written = write_rgb index r g b strip in
    if not (ltb index strip.led_count)
    then (err_invalid_arg, some strip)
    else if strip.params.bytes_per_pixel == 4
    then (ok, some (write_white index 0 written))
    else (ok, some written)

-- `blusys_led_strip_set_pixel_rgbw`
unfoldable pub set_pixel_rgbw : Option LedStrip → ℕ → ℕ → ℕ → ℕ → ℕ → BlusysErr × Option LedStrip
set_pixel_rgbw none index r g b w = (err_invalid_arg, none)
set_pixel_rgbw (some strip) index r g b w =
    if not (ltb index strip.led_count)
    then (err_invalid_arg, some strip)
    else if not (strip.params.bytes_per_pixel == 4)
    then (err_not_supported, some strip)
    else (ok, some (write_white index w (write_rgb index r g b strip)))
