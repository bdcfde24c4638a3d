-- ===== src/Drivers/LedStrip/Frame.antt =====
-- What a strip of the chips of components/blusys/src/drivers/led_strip.c must be sent: the bytes of
-- its pixels in the chip's order, without a buffer, an offset or an overflow.
use blusys.Base.{
  ℕ, zero, suc, ◌+◌, ◌*◌, ◌<◌, ◌≡◌, refl, ap, ◌∙◌, Bool, true, false, List, [], ◌∷◌, ◌++◌, arith,
  ◌==◌, if◌then◌else◌, length, set, length-append,
}
use blusys.Drivers.LedStrip.Defs.{
  LedStripType, ws2812b, sk6812_rgb, sk6812_rgbw, ws2811, apa106, params_of,
}

pub record Color : Type 0 where
  pub red : ℕ
  pub green : ℕ
  pub blue : ℕ
  pub white : ℕ

unfoldable pub pixel_bytes : LedStripType → Color → List ℕ
pixel_bytes ws2812b c = c.green ∷ c.red ∷ c.blue ∷ []
pixel_bytes sk6812_rgb c = c.green ∷ c.red ∷ c.blue ∷ []
pixel_bytes sk6812_rgbw c = c.green ∷ c.red ∷ c.blue ∷ c.white ∷ []
pixel_bytes ws2811 c = c.red ∷ c.green ∷ c.blue ∷ []
pixel_bytes apa106 c = c.red ∷ c.green ∷ c.blue ∷ []

unfoldable pub frame : LedStripType → List Color → List ℕ
frame type [] = []
frame type (c ∷ cs) = pixel_bytes type c ++ frame type cs

length-pixel_bytes :
    (type : LedStripType) (c : Color)
    → length (pixel_bytes type c) ≡ (params_of type).bytes_per_pixel
unfolding pixel_bytes
length-pixel_bytes ws2812b c = refl
length-pixel_bytes sk6812_rgb c = refl
length-pixel_bytes sk6812_rgbw c = refl
length-pixel_bytes ws2811 c = refl
length-pixel_bytes apa106 c = refl

pub length-frame :
    (type : LedStripType) (cs : List Color)
    → length (frame type cs) ≡ length cs * (params_of type).bytes_per_pixel
unfolding frame
length-frame type [] = omega arith
length-frame type (c ∷ cs) = omega (
  arith,
  length-append (pixel_bytes type c) (frame type cs),
  length-pixel_bytes type c,
  length-frame type cs,
)

-- The bytes of a pixel that starts at an offset, written one after the other.
unfoldable pub put_color : LedStripType → ℕ → Color → List ℕ → List ℕ
put_color type start c buf =
    let p = params_of type in
    let rgb =
      set (set (set buf (start + p.r_offset) c.red) (start + p.g_offset) c.green)
        (start + p.b_offset) c.blue in
    if p.bytes_per_pixel == 4 then set rgb (start + p.w_offset) c.white else rgb

set-append : (xs ys : List ℕ) (i v : ℕ) → set (xs ++ ys) (length xs + i) v ≡ xs ++ set ys i v
set-append [] ys i v = ap (λ j. set ys j v) (omega arith)
set-append (x ∷ xs) ys i v =
    let e : suc (length xs) + i ≡ suc (length xs + i) = omega arith in
    ap (λ j. set (x ∷ xs ++ ys) j v) e ∙ ap (λ zs. x ∷ zs) (set-append xs ys i v)

set_later :
    (xs ys : List ℕ) (k start o v : ℕ)
    → length xs ≡ k
    → set (xs ++ ys) (k + start + o) v ≡ xs ++ set ys (start + o) v
set_later xs ys k start o v h =
    ap (λ j. set (xs ++ ys) j v) (omega (arith, h)) ∙ set-append xs ys (start + o) v

-- The three colors, then white if there is a fourth byte.
rgb_later :
    (xs ys : List ℕ) (k start ro go bo r g b : ℕ)
    → length xs ≡ k
    → set (set (set (xs ++ ys) (k + start + ro) r) (k + start + go) g) (k + start + bo) b
      ≡ xs ++ set (set (set ys (start + ro) r) (start + go) g) (start + bo) b
rgb_later xs ys k start ro go bo r g b h =
    ap (λ zs. set (set zs (k + start + go) g) (k + start + bo) b) (set_later xs ys k start ro r h)
    ∙ ap (λ zs. set zs (k + start + bo) b) (set_later xs _ k start go g h)
    ∙ set_later xs _ k start bo b h

white_later :
    (four : Bool) (xs zs ys : List ℕ) (k start wo w : ℕ)
    → length xs ≡ k
    → zs ≡ xs ++ ys
    → (if four then set zs (k + start + wo) w else zs)
      ≡ xs ++ (if four then set ys (start + wo) w else ys)
white_later true xs zs ys k start wo w h e =
    ap (λ l. set l (k + start + wo) w) e ∙ set_later xs ys k start wo w h
white_later false xs zs ys k start wo w h e = e

put_color_later :
    (type : LedStripType) (c0 c : Color) (start : ℕ) (rest : List ℕ)
    → put_color type ((params_of type).bytes_per_pixel + start) c (pixel_bytes type c0 ++ rest)
      ≡ pixel_bytes type c0 ++ put_color type start c rest
unfolding put_color
put_color_later type c0 c start rest =
    let h = length-pixel_bytes type c0 in
    white_later _ (pixel_bytes type c0) _ _ _ start _ c.white h
      (rgb_later (pixel_bytes type c0) rest _ start _ _ _ c.red c.green c.blue h)

put_color_first :
    (type : LedStripType) (c0 c : Color) (rest : List ℕ)
    → put_color type 0 c (pixel_bytes type c0 ++ rest) ≡ pixel_bytes type c ++ rest
unfolding put_color pixel_bytes
put_color_first ws2812b c0 c rest = refl
put_color_first sk6812_rgb c0 c rest = refl
put_color_first sk6812_rgbw c0 c rest = refl
put_color_first ws2811 c0 c rest = refl
put_color_first apa106 c0 c rest = refl

-- Writing a pixel's bytes into a frame sets the pixel's color.
pub put_color-frame :
    (type : LedStripType) (cs : List Color) (i : ℕ) (c : Color)
    → i < length cs
    → put_color type (i * (params_of type).bytes_per_pixel) c (frame type cs)
      ≡ frame type (set cs i c)
unfolding frame
put_color-frame type [] i c h = absurd (omega arith)
put_color-frame type (c0 ∷ cs) zero c h =
    ap (λ s. put_color type s c (pixel_bytes type c0 ++ frame type cs)) (omega arith)
    ∙ put_color_first type c0 c (frame type cs)
put_color-frame type (c0 ∷ cs) (suc i) c h =
    ap (λ s. put_color type s c (pixel_bytes type c0 ++ frame type cs)) (omega arith)
    ∙ put_color_later type c0 c (i * (params_of type).bytes_per_pixel) (frame type cs)
    ∙ ap (λ ys. pixel_bytes type c0 ++ ys) (put_color-frame type cs i c (omega arith))
