-- ===== src/Drivers/LedStrip/Sent.antt =====
-- From opening a strip of components/blusys/src/drivers/led_strip.c, over any calls that set its
-- pixels, to what a refresh sends.
use mathlib.Core.Path.{subst}
use blusys.Base.{
  ℕ, zero, suc, ◌+◌, ◌*◌, ◌%◌, ◌^◌, ◌<◌, ◌≡◌, refl, ap, ap₂, sym, ◌∙◌, some, List, [], ◌∷◌, ◌++◌,
  arith, length, replicate, length-replicate, take, drop,
}
use blusys.Base.Int.{ℤ, pos}
use blusys.Hal.Error.{EspErr, ok, translate_esp_err}
use blusys.Drivers.LedStrip.Defs.{
  LedStripType, ws2812b, sk6812_rgb, sk6812_rgbw, ws2811, apa106, params_of,
}
use blusys.Drivers.LedStrip.Calls.{
  Call, lock_take, lock_give, transmit_bytes, transmit_reset, wait_all_done, Env, send, locked_send,
  refresh, zero_buf, clear,
}
use blusys.Drivers.LedStrip.Open.{new_strip}
use blusys.Drivers.LedStrip.Frame.{Color, pixel_bytes, frame, length-frame}
use blusys.Drivers.LedStrip.Shown.{
  Paint, paints, color, recolors, showing, paints-showing, length-recolors,
}

take_all : (n : ℕ) (xs : List ℕ) → n ≡ length xs → take n xs ≡ xs
take_all zero [] h = refl
take_all zero (x ∷ xs) h = absurd (omega arith)
take_all (suc n) [] h = refl
take_all (suc n) (x ∷ xs) h = ap (λ l. x ∷ l) (take_all n xs (omega arith))

abbrev zeros : ℕ → List ℕ
zeros n = replicate n 0

zeros_add : (k m : ℕ) → zeros (k + m) ≡ zeros k ++ zeros m
zeros_add zero m = let e : zero + m ≡ m = omega arith in ap (λ n. zeros n) e
zeros_add (suc k) m =
    let e : suc k + m ≡ suc (k + m) = omega arith in
    ap (λ n. zeros n) e ∙ ap (λ l. 0 ∷ l) (zeros_add k m)

abbrev pub black : Color
black = color 0 0 0 0

pixel_bytes-black :
    (type : LedStripType) → pixel_bytes type black ≡ zeros (params_of type).bytes_per_pixel
unfolding pixel_bytes
pixel_bytes-black ws2812b = refl
pixel_bytes-black sk6812_rgb = refl
pixel_bytes-black sk6812_rgbw = refl
pixel_bytes-black ws2811 = refl
pixel_bytes-black apa106 = refl

frame-black :
    (type : LedStripType) (n : ℕ)
    → zeros (n * (params_of type).bytes_per_pixel) ≡ frame type (replicate n black)
unfolding frame
frame-black type zero = let e : 0 * (params_of type).bytes_per_pixel ≡ 0 = omega arith in ap zeros e
frame-black type (suc n) =
    let k = (params_of type).bytes_per_pixel in
    let e : suc n * k ≡ k + n * k = omega arith in
    ap (λ m. zeros m) e
    ∙ zeros_add k (n * k)
    ∙ ap (λ l. l ++ zeros (n * k)) (sym (pixel_bytes-black type))
    ∙ ap (λ l. pixel_bytes type black ++ l) (frame-black type n)

new_strip-showing :
    (type : LedStripType) (n : ℕ)
    → n * (params_of type).bytes_per_pixel < 2 ^ 32
    → new_strip type n ≡ showing type (replicate n black)
unfolding new_strip
new_strip-showing type n room =
    let k = (params_of type).bytes_per_pixel in
    let e : n * k % 2 ^ 32 ≡ n * k = omega (arith, room) in
    ap₂ (λ m buf. record (showing type (replicate n black)) { led_count = m; buf = buf })
      (sym (length-replicate n black)) (ap zeros e ∙ frame-black type n)

-- When every call of a refresh succeeds.
abbrev pub all_succeed : Env
all_succeed = record {
  lock_err = ok;
  send_frame = EspErr.esp_ok;
  frame_done = EspErr.esp_ok;
  send_reset = EspErr.esp_ok;
  reset_done = EspErr.esp_ok;
}

refresh-showing :
    (type : LedStripType) (cs : List Color) (ms : ℕ) (t : List Call)
    → length cs * (params_of type).bytes_per_pixel < 2 ^ 32
    → refresh all_succeed (some (showing type cs)) (pos ms) t ≡ (
      ok,
      lock_give
          ∷ wait_all_done (some ms) EspErr.esp_ok
          ∷ transmit_reset (params_of type).reset EspErr.esp_ok
          ∷ wait_all_done (some ms) EspErr.esp_ok
          ∷ transmit_bytes (frame type cs) EspErr.esp_ok
          ∷ lock_take ok
          ∷ t,
    )
unfolding refresh locked_send send translate_esp_err
refresh-showing type cs ms t room =
    let k = (params_of type).bytes_per_pixel in
    let e : length cs * k % 2 ^ 32 ≡ length (frame type cs) =
      omega (arith, room, length-frame type cs) in
    rw (take_all (length cs * k % 2 ^ 32) (frame type cs) e) refl

-- On a new strip of n pixels, whose bytes number less than 2 ^ 32, whatever pixels are set: no byte is
-- written outside of the buffer, and a refresh whose calls succeed sends, under the lock, the bytes of
-- the colors last set, in the chip's order, waits, sends the chip's reset and waits.
pub paints-refresh :
    (type : LedStripType) (n : ℕ) (ps : List Paint) (ms : ℕ) (t : List Call)
    → n * (params_of type).bytes_per_pixel < 2 ^ 32
    → let strip = paints ps (some (new_strip type n)) in
      let colors = recolors type ps (replicate n black) in
      (strip ≡ some (showing type colors))
      × (refresh all_succeed strip (pos ms) t ≡ (
        ok,
        lock_give
            ∷ wait_all_done (some ms) EspErr.esp_ok
            ∷ transmit_reset (params_of type).reset EspErr.esp_ok
            ∷ wait_all_done (some ms) EspErr.esp_ok
            ∷ transmit_bytes (frame type colors) EspErr.esp_ok
            ∷ lock_take ok
            ∷ t,
      ))
paints-refresh type n ps ms t room =
    let cs = replicate n black in
    let fits : length cs * (params_of type).bytes_per_pixel < 2 ^ 32 =
      subst (λ m. m * (params_of type).bytes_per_pixel < 2 ^ 32) (sym (length-replicate n black))
        room in
    let shown : paints ps (some (new_strip type n)) ≡ some (showing type (recolors type ps cs)) =
      ap (λ s. paints ps (some s)) (new_strip-showing type n room)
      ∙ paints-showing type ps cs fits in
    let fits' : length (recolors type ps cs) * (params_of type).bytes_per_pixel < 2 ^ 32 =
      subst (λ m. m * (params_of type).bytes_per_pixel < 2 ^ 32) (sym (length-recolors type ps cs))
        fits in
    (
      shown,
      ap (λ s. refresh all_succeed s (pos ms) t) shown
          ∙ refresh-showing type (recolors type ps cs) ms t fits',
    )

drop_all : (n : ℕ) (xs : List ℕ) → n ≡ length xs → drop n xs ≡ []
drop_all zero [] h = refl
drop_all zero (x ∷ xs) h = absurd (omega arith)
drop_all (suc n) [] h = refl
drop_all (suc n) (x ∷ xs) h = drop_all n xs (omega arith)

append_nil : (xs : List ℕ) → xs ++ [] ≡ xs
append_nil [] = refl
append_nil (x ∷ xs) = ap (λ l. x ∷ l) (append_nil xs)

-- Clearing a strip leaves it black, whatever the refresh returns.
pub clear-black :
    (env : Env) (type : LedStripType) (cs : List Color) (timeout_ms : ℤ) (t : List Call)
    → length cs * (params_of type).bytes_per_pixel < 2 ^ 32
    → (clear env (some (showing type cs)) timeout_ms t).1
      ≡ some (showing type (replicate (length cs) black))
unfolding clear zero_buf
clear-black env type cs timeout_ms t room =
    let n = length cs in
    let size = n * (params_of type).bytes_per_pixel in
    let e : size % 2 ^ 32 ≡ size = omega (arith, room) in
    let f : size % 2 ^ 32 ≡ length (frame type cs) = omega (arith, room, length-frame type cs) in
    let zeroed : zeros (size % 2 ^ 32) ++ drop (size % 2 ^ 32) (frame type cs)
        ≡ frame type (replicate n black) =
      ap (λ l. zeros (size % 2 ^ 32) ++ l) (drop_all (size % 2 ^ 32) (frame type cs) f)
      ∙ append_nil (zeros (size % 2 ^ 32))
      ∙ ap zeros e
      ∙ frame-black type n in
    ap₂ (λ m buf. some (record (showing type cs) { led_count = m; buf = buf }))
      (sym (length-replicate n black)) zeroed
