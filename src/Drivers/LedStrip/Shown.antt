-- ===== src/Drivers/LedStrip/Shown.antt =====
-- Any calls that set pixels in components/blusys/src/drivers/led_strip.c, and what is sent then.
use mathlib.Core.Path.{subst}
use blusys.Base.{
  ap₂, ℕ, zero, suc, ◌+◌, ◌*◌, ◌^◌, ◌<◌, ◌≡◌, refl, ap, sym, ◌∙◌, Bool, true, false, not, Option,
  some, List, [], ◌∷◌, arith, ltb, ◌==◌, if◌then◌else◌, length, set, length-set, Bool-cases, inl,
  inr, if_true, if_both,
}
use blusys.Hal.Error.{BlusysErr, ok, err_invalid_arg, err_not_supported}
use blusys.Drivers.LedStrip.Defs.{
  LedStripType, ws2812b, sk6812_rgb, sk6812_rgbw, ws2811, apa106, Params, params_of, LedStrip,
  write_buf, write_rgb, write_white, pixel_start, set_pixel, set_pixel_rgbw,
}
use blusys.Drivers.LedStrip.Frame.{Color, frame, put_color, put_color-frame, length-frame}

-- A call that sets a pixel.
pub data Paint : Type 0 where
  rgb : ℕ → ℕ → ℕ → ℕ → Paint
  rgbw : ℕ → ℕ → ℕ → ℕ → ℕ → Paint

unfoldable pub paint : Paint → Option LedStrip → Option LedStrip
paint (rgb index r g b) strip = (set_pixel strip index r g b).1
paint (rgbw index r g b w) strip = (set_pixel_rgbw strip index r g b w).1

unfoldable pub paints : List Paint → Option LedStrip → Option LedStrip
paints [] strip = strip
paints (p ∷ ps) strip = paints ps (paint p strip)

abbrev pub color : ℕ → ℕ → ℕ → ℕ → Color
color r g b w = record { red = r; green = g; blue = b; white = w }

-- The same on the colors themselves; only chips with four bytes to a pixel take white.
unfoldable pub recolor : LedStripType → Paint → List Color → List Color
recolor type (rgb index r g b) cs = set cs index (color r g b 0)
recolor type (rgbw index r g b w) cs =
    if (params_of type).bytes_per_pixel == 4 then set cs index (color r g b w) else cs

unfoldable pub recolors : LedStripType → List Paint → List Color → List Color
recolors type [] cs = cs
recolors type (p ∷ ps) cs = recolors type ps (recolor type p cs)

-- A strip whose buffer holds the frame of these colors, and that has never written outside of it.
abbrev pub showing : LedStripType → List Color → LedStrip
showing type cs = record {
  params = params_of type;
  led_count = length cs;
  buf = frame type cs;
  stray_writes = [];
}

-- Setting a pixel beyond the last one changes nothing.
set_beyond : (cs : List Color) (i : ℕ) (c : Color) → ltb i (length cs) ≡ false → set cs i c ≡ cs
set_beyond [] i c h = refl
set_beyond (x ∷ cs) zero c h = absurd (ground (arith, h))
set_beyond (x ∷ cs) (suc i) c h = ap (λ l. x ∷ l) (set_beyond cs i c (ground (arith, h)))

write_buf_in :
    (strip : LedStrip) (offset v : ℕ)
    → offset < length strip.buf
    → write_buf offset v strip ≡ record strip { buf = set strip.buf offset v }
unfolding write_buf
write_buf_in strip offset v h =
    if_true (λ (s : LedStrip). s ≡ record strip { buf = set strip.buf offset v })
      (ltb offset (length strip.buf)) _ _ (ground (arith, h)) refl

-- The offsets of a pixel's bytes.
record Inside (p : Params) (size start : ℕ) : Type 0 where
  r_in : start + p.r_offset < size
  g_in : start + p.g_offset < size
  b_in : start + p.b_offset < size
  w_in : start + p.w_offset < size

inside :
    (type : LedStripType) (n i : ℕ)
    → i < n
    → Inside
        (params_of type)
        (n * (params_of type).bytes_per_pixel)
        (i * (params_of type).bytes_per_pixel)
inside ws2812b n i h = record {
  r_in = omega arith;
  g_in = omega arith;
  b_in = omega arith;
  w_in = omega arith;
}
inside sk6812_rgb n i h = record {
  r_in = omega arith;
  g_in = omega arith;
  b_in = omega arith;
  w_in = omega arith;
}
inside sk6812_rgbw n i h = record {
  r_in = omega arith;
  g_in = omega arith;
  b_in = omega arith;
  w_in = omega arith;
}
inside ws2811 n i h = record {
  r_in = omega arith;
  g_in = omega arith;
  b_in = omega arith;
  w_in = omega arith;
}
inside apa106 n i h = record {
  r_in = omega arith;
  g_in = omega arith;
  b_in = omega arith;
  w_in = omega arith;
}

abbrev with_buf : LedStrip → List ℕ → LedStrip
with_buf strip buf = record strip { buf = buf }

abbrev put_rgb : Params → ℕ → ℕ → ℕ → ℕ → List ℕ → List ℕ
put_rgb p start r g b buf =
    set (set (set buf (start + p.r_offset) r) (start + p.g_offset) g) (start + p.b_offset) b

write_rgb_in :
    (strip : LedStrip) (i start r g b : ℕ)
    → pixel_start strip.params i ≡ start
    → Inside strip.params (length strip.buf) start
    → write_rgb i r g b strip ≡ with_buf strip (put_rgb strip.params start r g b strip.buf)
unfolding write_rgb
write_rgb_in strip i start r g b e h =
    let p = strip.params in
    let l1 = length-set strip.buf (start + p.r_offset) r in
    let l2 = length-set (set strip.buf (start + p.r_offset) r) (start + p.g_offset) g in
    rw e (
      ap (λ s. write_buf (start + p.b_offset) b (write_buf (start + p.g_offset) g s))
        (write_buf_in strip _ r h.r_in)
      ∙ ap (write_buf (start + p.b_offset) b) (write_buf_in _ _ g (omega (arith, l1, h.g_in)))
      ∙ write_buf_in _ _ b (omega (arith, l1, l2, h.b_in)))

write_white_in :
    (strip : LedStrip) (i start r g b w : ℕ)
    → pixel_start strip.params i ≡ start
    → Inside strip.params (length strip.buf) start
    → write_white i w (write_rgb i r g b strip)
      ≡ with_buf strip
          (set (put_rgb strip.params start r g b strip.buf) (start + strip.params.w_offset) w)
unfolding write_white
write_white_in strip i start r g b w e h =
    let p = strip.params in
    let l1 = length-set strip.buf (start + p.r_offset) r in
    let l2 = length-set (set strip.buf (start + p.r_offset) r) (start + p.g_offset) g in
    let l3 =
      length-set (set (set strip.buf (start + p.r_offset) r) (start + p.g_offset) g)
        (start + p.b_offset) b in
    ap (λ s. write_buf (pixel_start s.params i + s.params.w_offset) w s)
      (write_rgb_in strip i start r g b e h)
    ∙ ap (λ t. write_buf (t + p.w_offset) w (with_buf strip (put_rgb p start r g b strip.buf))) e
    ∙ write_buf_in _ _ w (omega (arith, l1, l2, l3, h.w_in))

if_with_buf :
    (four : Bool) (strip x y : LedStrip) (bx by : List ℕ)
    → x ≡ with_buf strip bx
    → y ≡ with_buf strip by
    → (if four then x else y) ≡ with_buf strip (if four then bx else by)
if_with_buf true strip x y bx by p q = p
if_with_buf false strip x y bx by p q = q

-- A pixel of a strip, its three or four bytes.
pixel_written :
    (type : LedStripType) (cs : List Color) (i r g b w : ℕ)
    → length cs * (params_of type).bytes_per_pixel < 2 ^ 32
    → i < length cs
    → (if (params_of type).bytes_per_pixel == 4
        then write_white i w (write_rgb i r g b (showing type cs))
        else write_rgb i r g b (showing type cs))
      ≡ showing type (set cs i (color r g b w))
unfolding put_color
pixel_written type cs i r g b w room h =
    let start = i * (params_of type).bytes_per_pixel in
    let within = inside type (length cs) i h in
    let ins : Inside (params_of type) (length (frame type cs)) start =
      subst (λ size. Inside (params_of type) size start) (sym (length-frame type cs)) within in
    let e : pixel_start (params_of type) i ≡ start = omega (arith, within.r_in, room) in
    if_with_buf _ (showing type cs) _ _ _ _ (write_white_in (showing type cs) i start r g b w e ins)
      (write_rgb_in (showing type cs) i start r g b e ins)
    ∙ ap₂ (λ n buf. record (showing type cs) { led_count = n; buf = buf })
        (sym (length-set cs i (color r g b w))) (put_color-frame type cs i (color r g b w) h)

-- The strip that a guarded write returns.
unfoldable guarded :
    Bool → Bool → BlusysErr → LedStrip → LedStrip → LedStrip → BlusysErr × Option LedStrip
guarded inside four err strip x y =
    if not inside
    then (err_invalid_arg, some strip)
    else if four
    then (ok, some x)
    else (err, some y)

guarded_in :
    (inside four : Bool) (err : BlusysErr) (strip x y : LedStrip)
    → inside ≡ true
    → (guarded inside four err strip x y).1 ≡ some (if four then x else y)
unfolding guarded
guarded_in true true err strip x y e = refl
guarded_in true false err strip x y e = refl
guarded_in false four err strip x y e = absurd (ground (arith, e))

guarded_out :
    (inside four : Bool) (err : BlusysErr) (strip x y : LedStrip)
    → inside ≡ false
    → (guarded inside four err strip x y).1 ≡ some strip
unfolding guarded
guarded_out true four err strip x y e = absurd (ground (arith, e))
guarded_out false four err strip x y e = refl

unfoldable guarded_white : Bool → Bool → LedStrip → LedStrip → BlusysErr × Option LedStrip
guarded_white inside four strip x =
    if not inside
    then (err_invalid_arg, some strip)
    else if not four
    then (err_not_supported, some strip)
    else (ok, some x)

guarded_white-showing :
    (inside four : Bool) (type : LedStripType) (x : LedStrip) (cs cs' : List Color)
    → (four ≡ true → inside ≡ true → x ≡ showing type cs')
    → (inside ≡ false → cs' ≡ cs)
    → (guarded_white inside four (showing type cs) x).1
      ≡ some (showing type (if four then cs' else cs))
unfolding guarded_white
guarded_white-showing true true type x cs cs' p q = ap some (p refl refl)
guarded_white-showing true false type x cs cs' p q = refl
guarded_white-showing false true type x cs cs' p q = ap (λ l. some (showing type l)) (sym (q refl))
guarded_white-showing false false type x cs cs' p q = refl

paint-showing :
    (type : LedStripType) (p : Paint) (cs : List Color)
    → length cs * (params_of type).bytes_per_pixel < 2 ^ 32
    → paint p (some (showing type cs)) ≡ some (showing type (recolor type p cs))
unfolding paint recolor set_pixel set_pixel_rgbw guarded guarded_white
paint-showing type (rgb i r g b) cs room = elim (Bool-cases (ltb i (length cs))) [
  | inl e ↦
      guarded_in (ltb i (length cs)) ((params_of type).bytes_per_pixel == 4) ok _ _ _ e
      ∙ ap some (pixel_written type cs i r g b 0 room (ground (arith, e)))
  | inr e ↦
      guarded_out (ltb i (length cs)) ((params_of type).bytes_per_pixel == 4) ok _ _ _ e
      ∙ ap (λ l. some (showing type l)) (sym (set_beyond cs i (color r g b 0) e))
]
paint-showing type (rgbw i r g b w) cs room =
    let four = (params_of type).bytes_per_pixel == 4 in
    guarded_white-showing (ltb i (length cs)) four type _ cs (set cs i (color r g b w))
      (λ k e.
        if_true (λ (z : LedStrip). write_white i w (write_rgb i r g b (showing type cs)) ≡ z) four _
          _ k refl
        ∙ pixel_written type cs i r g b w room (ground (arith, e)))
      (set_beyond cs i (color r g b w))

length-recolor :
    (type : LedStripType) (p : Paint) (cs : List Color) → length (recolor type p cs) ≡ length cs
unfolding recolor
length-recolor type (rgb i r g b) cs = length-set cs i _
length-recolor type (rgbw i r g b w) cs =
    if_both (λ (l : List Color). length l ≡ length cs) ((params_of type).bytes_per_pixel == 4)
      (length-set cs i _) refl

pub paints-showing :
    (type : LedStripType) (ps : List Paint) (cs : List Color)
    → length cs * (params_of type).bytes_per_pixel < 2 ^ 32
    → paints ps (some (showing type cs)) ≡ some (showing type (recolors type ps cs))
unfolding paints recolors
paints-showing type [] cs room = refl
paints-showing type (p ∷ ps) cs room =
    ap (paints ps) (paint-showing type p cs room)
    ∙ paints-showing type ps (recolor type p cs) (
        subst (λ n. n * (params_of type).bytes_per_pixel < 2 ^ 32) (sym (length-recolor type p cs))
          room)

pub length-recolors :
    (type : LedStripType) (ps : List Paint) (cs : List Color)
    → length (recolors type ps cs) ≡ length cs
unfolding recolors
length-recolors type [] cs = refl
length-recolors type (p ∷ ps) cs =
    length-recolors type ps (recolor type p cs) ∙ length-recolor type p cs
