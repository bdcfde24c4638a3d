-- ===== src/Drivers/SevenSeg/Digits.antt =====
-- The digits that `render_int` lays out, against positional notation. A place p of n digits has the
-- weight k with p + k + 1 = n.
use mathlib.Core.Bool.{false≢true}
use native.Mathlib.Nat.{pow-le-pow_right, div-one}
use blusys.Base.{
  ℕ, zero, suc, ◌+◌, ◌-◌, ◌/◌, ◌%◌, ◌^◌, ◌≤◌, ◌<◌, ◌≡◌, refl, ◌↔◌, Bool, true, false, not, ◌&&◌,
  ◌||◌, none, some, List, arith, ltb, ◌==◌, if◌then◌else◌, length, get_or, get_or-set, replicate,
}
use blusys.Base.Int.{ℤ, pos, negsuc}
use blusys.Drivers.SevenSeg.Defs.{segment_at, seg_minus}
use blusys.Drivers.SevenSeg.Render.{
  filler, filled, fill_digits, put_minus, layout_int, render_magnitude, render_int,
}
use blusys.Drivers.SevenSeg.Fill.{
  decimal_limit_lem, fill_digits-length, fill_digits_lem, fill_digits_left-le, fill_digits_left,
  zero_digit,
}

-- What stands at the place with weight k: the digit of that weight, with no leading zero but for
-- the number 0 itself; left of the highest digit the minus sign; the filler elsewhere.
unfoldable pub shown_at : Bool → ℕ → Bool → ℕ → ℕ
shown_at negative uval leading_zeros k =
    if not (uval / 10 ^ k == 0) || (k == 0 && not negative)
    then segment_at (uval / 10 ^ k % 10)
    else if negative && not (uval / 10 ^ (k - 1) == 0)
    then seg_minus
    else filler leading_zeros

get_or-replicate : (n x p : ℕ) → p < n → get_or (replicate n x) p 0 ≡ x
get_or-replicate zero x p h = absurd (omega arith)
get_or-replicate (suc n) x zero h = refl
get_or-replicate (suc n) x (suc p) h = get_or-replicate n x p (omega arith)

put_minus_lem :
    (r : List ℕ × ℕ) (p : ℕ)
    → r.1 ≤ length r.0
    → get_or (put_minus true r) p 0 ≡ (if suc p == r.1 then seg_minus else get_or r.0 p 0)
unfolding put_minus
put_minus_lem (buf, zero) p h = ground arith
put_minus_lem (buf, suc q) p h = ground (arith, get_or-set buf q p seg_minus 0)

filled_lem : (lz : Bool) (p : ℕ) → p < 8 → get_or (filled lz) p 0 ≡ filler lz
unfolding filled
filled_lem lz p h = get_or-replicate 8 (filler lz) p h

filled-length : (lz : Bool) → length (filled lz) ≡ 8
unfolding filled
filled-length lz = refl

module _ (n u p : ℕ) (lz : Bool) (small : n ≤ 8) where
  digits_at :
      (k : ℕ)
      → p + suc k ≡ n
      → get_or (fill_digits n u (filled lz)).0 p 0
        ≡ (if u / 10 ^ k == 0 then filler lz else segment_at (u / 10 ^ k % 10))
  digits_at k e =
      rw
        (
          fill_digits_lem n u (filled lz) p k e (omega (arith, filled-length lz)),
          filled_lem lz p (omega arith),
        )
        refl

  unit : u / 10 ^ 0 ≡ u
  unit = div-one u

  layout_positive :
      (k : ℕ) → p + suc k ≡ n → get_or (layout_int n false u lz) p 0 ≡ shown_at false u lz k
  unfolding layout_int shown_at put_minus
  layout_positive zero e = ground (
    arith,
    digits_at zero e,
    unit,
    filled_lem lz p (omega arith),
    filled-length lz,
    get_or-set (filled lz) (n - 1) p (segment_at 0) 0,
  )
  layout_positive (suc j) e = ground (
    arith,
    digits_at (suc j) e,
    zero_digit u (suc j),
    filled_lem lz p (omega arith),
    filled-length lz,
    get_or-set (filled lz) (n - 1) p (segment_at 0) 0,
  )

  minus_at :
      p < n
      → get_or (put_minus true (fill_digits n u (filled lz))) p 0 ≡ (
          if suc p == (fill_digits n u (filled lz)).1
          then seg_minus
          else get_or (fill_digits n u (filled lz)).0 p 0)
  minus_at h = put_minus_lem (fill_digits n u (filled lz)) p (
      omega (
        arith,
        fill_digits-length n u (filled lz),
        fill_digits_left-le n u (filled lz),
        filled-length lz,
      ))

  layout_negative :
      (k : ℕ) → p + suc k ≡ n → 0 < u → get_or (layout_int n true u lz) p 0 ≡ shown_at true u lz k
  unfolding layout_int shown_at
  layout_negative zero e some_digit = ground (
    arith,
    minus_at (omega arith),
    digits_at zero e,
    unit,
    fill_digits_left n u (filled lz) p 0 e,
    fill_digits_left-le n u (filled lz),
  )
  layout_negative (suc j) e some_digit =
      let same : suc j - 1 ≡ j = omega arith in
      rw same (
        ground (
          arith,
          minus_at (omega arith),
          digits_at (suc j) e,
          fill_digits_left n u (filled lz) p (suc j) e,
          fill_digits_left n u (filled lz) (suc p) j (omega arith),
        ))

layout_int_lem :
    (n : ℕ) (negative : Bool) (u p k : ℕ) (lz : Bool)
    → n ≤ 8
    → p + suc k ≡ n
    → (negative ≡ true → 0 < u)
    → get_or (layout_int n negative u lz) p 0 ≡ shown_at negative u lz k
layout_int_lem n false u p k lz small e h = layout_positive n u p lz small k e
layout_int_lem n true u p k lz small e h = layout_negative n u p lz small k e (h refl)

abbrev pub is_negative : ℤ → Bool
is_negative (pos n) = false
is_negative (negsuc n) = true

abbrev pub magnitude : ℤ → ℕ
magnitude (pos n) = n
magnitude (negsuc n) = suc n

-- A value fits n digits if its digits do, and one place is left for the sign of a negative one.
abbrev pub fits : ℕ → ℤ → Bool
fits n value = ltb (magnitude value) (10 ^ (if is_negative value then n - 1 else n))

render_magnitude_lem :
    (n : ℕ) (negative : Bool) (u : ℕ) (lz : Bool)
    → n ≤ 8
    → render_magnitude n negative u lz ≡ (
        if ltb u (10 ^ (if negative then n - 1 else n))
        then some (layout_int n negative u lz)
        else none)
unfolding render_magnitude
render_magnitude_lem n false u lz small = rw (decimal_limit_lem n small) (ground arith)
render_magnitude_lem n true u lz small = rw (decimal_limit_lem (n - 1) (omega arith)) (ground arith)

ten-pow : (n : ℕ) → n ≤ 7 → 10 ^ n ≤ 10000000
ten-pow n h = pow-le-pow_right (omega arith) h

-- On a display of at most 8 digits a value other than INT_MIN is refused exactly if it does not
-- fit, and INT_MIN, which no such display can show, is refused.
pub render_int_refuses :
    (n : ℕ) (value : ℤ) (lz : Bool)
    → n ≤ 8
    → (render_int n value lz ≡ none) ↔ (fits n value ≡ false)
unfolding render_int
render_int_refuses n (pos u) lz small = rw (render_magnitude_lem n false u lz small) (ground arith)
render_int_refuses n (negsuc u) lz small =
    rw (render_magnitude_lem n true (suc u) lz small) (ground (arith, ten-pow (n - 1)))

-- Each place of a rendered number shows what positional notation puts there.
pub render_int-shown_at :
    (n : ℕ) (value : ℤ) (lz : Bool) (p k : ℕ) {buf : List ℕ}
    → n ≤ 8
    → p + suc k ≡ n
    → render_int n value lz ≡ some buf
    → get_or buf p 0 ≡ shown_at (is_negative value) (magnitude value) lz k
unfolding render_int
render_int-shown_at n (pos u) lz p k small e h = ground (
  arith,
  rw (render_magnitude_lem n false u lz small) at h,
  layout_int_lem n false u p k lz small e (λ q. absurd (false≢true q)),
)
render_int-shown_at n (negsuc u) lz p k small e h = ground (
  arith,
  rw (render_magnitude_lem n true (suc u) lz small) at h,
  layout_int_lem n true (suc u) p k lz small e (λ q. omega arith),
)
