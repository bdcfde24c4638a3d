-- ===== src/Drivers/LedStrip/Tests.antt =====
-- Tests and witnesses for components/blusys/src/drivers/led_strip.c.
use blusys.Base.{true, ℕ, ◌≡◌, refl, Option, none, some, List, [], ◌∷◌, arith, replicate}
use blusys.Base.Int.{pos, negsuc}
use blusys.Hal.Error.{EspErr, ok, err_invalid_arg, err_not_supported}
use blusys.Drivers.LedStrip.Defs.{
  ws2812b, sk6812_rgbw, ws2811, apa106, LedStrip, write_buf, write_rgb, set_pixel, set_pixel_rgbw,
}
use blusys.Drivers.LedStrip.Calls.{
  lock_take, lock_give, transmit_bytes, transmit_reset, wait_all_done, refresh,
}
use blusys.Drivers.LedStrip.Open.{Env, Config, new_strip, led_strip_open}
use blusys.Drivers.LedStrip.Opened.{GivesBack, led_strip_open-GivesBack}
use blusys.Drivers.LedStrip.Frame.{pixel_bytes, frame}
use blusys.Drivers.LedStrip.Shown.{Paint, rgb, rgbw, paints, recolors, recolor, showing}
use blusys.Drivers.LedStrip.Sent.{black, all_succeed, paints-refresh}

-- The second of three pixels, first in color, then in white, and a fourth one that is not there.
abbrev calls : List Paint
calls = rgb 1 10 20 30 ∷ rgbw 1 1 2 3 4 ∷ rgb 3 9 9 9 ∷ []

grbw :
    frame sk6812_rgbw (recolors sk6812_rgbw calls (replicate 3 black))
    ≡ 0 ∷ 0 ∷ 0 ∷ 0 ∷ 2 ∷ 1 ∷ 3 ∷ 4 ∷ 0 ∷ 0 ∷ 0 ∷ 0 ∷ []
unfolding frame recolors recolor pixel_bytes
grbw = refl

rgb_order : frame ws2811 (recolors ws2811 calls (replicate 2 black)) ≡ 0 ∷ 0 ∷ 0 ∷ 10 ∷ 20 ∷ 30 ∷ []
unfolding frame recolors recolor pixel_bytes
rgb_order = refl

no_white : (set_pixel_rgbw (some (new_strip apa106 2)) 1 1 2 3 4).0 ≡ err_not_supported
unfolding set_pixel_rgbw new_strip
no_white = refl

-- 0x55555556 pixels of three bytes are 2 ^ 32 + 2 bytes, for which two are allocated.
abbrev huge : LedStrip
huge = new_strip ws2812b 0x55555556

two_bytes : huge.buf ≡ 0 ∷ 0 ∷ []
unfolding new_strip
two_bytes = refl

abbrev stray : Option LedStrip → List (ℕ × ℕ)
stray none = []
stray (some strip) = strip.stray_writes

outside_writes :
    (set_pixel (some huge) 1 7 8 9 ≡ (ok, (set_pixel (some huge) 1 7 8 9).1))
    × (stray (set_pixel (some huge) 1 7 8 9).1 ≡ (5, 9) ∷ (3, 8) ∷ (4, 7) ∷ [])
unfolding set_pixel write_rgb write_buf new_strip
outside_writes = (refl, refl)

forever_refused : refresh all_succeed (some huge) (negsuc 1) [] ≡ (err_invalid_arg, [])
unfolding refresh
forever_refused = refl

paints-refresh_example :
    let strip = paints calls (some (new_strip sk6812_rgbw 3)) in
    let colors = recolors sk6812_rgbw calls (replicate 3 black) in
    (strip ≡ some (showing sk6812_rgbw colors))
    × (refresh all_succeed strip (pos 100) [] ≡ (
      ok,
      lock_give
          ∷ wait_all_done (some 100) EspErr.esp_ok
          ∷ transmit_reset 800 EspErr.esp_ok
          ∷ wait_all_done (some 100) EspErr.esp_ok
          ∷ transmit_bytes (frame sk6812_rgbw colors) EspErr.esp_ok
          ∷ lock_take ok
          ∷ [],
    ))
paints-refresh_example = paints-refresh sk6812_rgbw 3 calls 100 [] (omega arith)

-- The SDK has no memory for the second encoder.
abbrev no_copy_encoder : Env
no_copy_encoder = record {
  alloc = true;
  alloc_buf = true;
  init = ok;
  channel = EspErr.esp_ok;
  bytes_encoder = EspErr.esp_ok;
  copy_encoder = EspErr.no_mem;
  enabled = EspErr.esp_ok;
}

abbrev three_pixels : Config
three_pixels = record { output_pin = true; led_count = 3; chip = 2 }

led_strip_open-GivesBack_example :
    GivesBack [] (led_strip_open no_copy_encoder (some three_pixels) true [])
led_strip_open-GivesBack_example =
    led_strip_open-GivesBack no_copy_encoder (some three_pixels) true []
