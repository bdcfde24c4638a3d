-- ===== src/Drivers/SevenSeg/Render.antt =====
-- How components/blusys/src/drivers/seven_seg.c lays the digits of a number into a buffer: the pure
-- part of `blusys_seven_seg_write_int` and `blusys_seven_seg_write_hex`.
use blusys.Base.{
  ℕ, zero, suc, ◌-◌, ◌*◌, ◌/◌, ◌%◌, ◌^◌, Bool, true, false, not, ◌&&◌, Option, none, some, List,
  leb, ◌==◌, if◌then◌else◌, set, replicate,
}
use blusys.Base.Int.{ℤ, pos, negsuc}
use blusys.Drivers.SevenSeg.Defs.{max_digits, segment_at, seg_blank, seg_minus}

-- `limit`, an unsigned int: the loop `for (i = 0; i < max_digits; i++) limit *= 10u`.
unfoldable pub decimal_limit : ℕ → ℕ → ℕ
decimal_limit zero limit = limit
decimal_limit (suc n) limit = decimal_limit n (limit * 10 % 2 ^ 32)

-- `while (v > 0 && pos >= 0)`, with `left` = pos + 1, the places not yet filled. Gives the buffer
-- and the places left.
unfoldable pub fill_digits : ℕ → ℕ → List ℕ → List ℕ × ℕ
fill_digits zero v buf = (buf, zero)
fill_digits (suc p) v buf =
    let next = fill_digits p (v / 10) (set buf p (segment_at (v % 10))) in
    if v == 0 then (buf, suc p) else next

-- `if (negative && pos >= 0) newbuf[pos] = SEG_MINUS`
unfoldable pub put_minus : Bool → List ℕ × ℕ → List ℕ
put_minus false (buf, left) = buf
put_minus true (buf, zero) = buf
put_minus true (buf, suc p) = set buf p seg_minus

-- What fills the places without a digit, and `newbuf` after the `memset`.
unfoldable pub filler : Bool → ℕ
filler leading_zeros = if leading_zeros then segment_at 0 else seg_blank

unfoldable pub filled : Bool → List ℕ
filled leading_zeros = replicate max_digits (filler leading_zeros)

-- The digits of the magnitude, the minus sign, the filler.
unfoldable pub layout_int : ℕ → Bool → ℕ → Bool → List ℕ
layout_int digit_count negative uval leading_zeros =
    let blank = filled leading_zeros in
    put_minus negative (
      if uval == 0 && not negative
      then (set blank (digit_count - 1) (segment_at 0), digit_count - 1)
      else fill_digits digit_count uval blank)

-- Sign and magnitude, and the bounds checks; none is BLUSYS_ERR_INVALID_ARG.
unfoldable pub render_magnitude : ℕ → Bool → ℕ → Bool → Option (List ℕ)
render_magnitude digit_count negative uval leading_zeros =
    let places = if negative then digit_count - 1 else digit_count in
    if leb (decimal_limit places 1) uval
    then none
    else some (layout_int digit_count negative uval leading_zeros)

-- INT_MIN is -(2 ^ 31), which is negsuc (2 ^ 31 - 1).
unfoldable pub render_int : ℕ → ℤ → Bool → Option (List ℕ)
render_int digit_count (pos n) leading_zeros = render_magnitude digit_count false n leading_zeros
render_int digit_count (negsuc n) leading_zeros =
    if n == 2 ^ 31 - 1 then none else render_magnitude digit_count true (suc n) leading_zeros

-- `max_val`, a uint64_t.
unfoldable pub hex_limit : ℕ → ℕ → ℕ
hex_limit zero limit = limit
hex_limit (suc n) limit = hex_limit n (limit * 16 % 2 ^ 64)

-- `for (i = digit_count - 1; i >= 0; i--)`, with i + 1 places left.
unfoldable pub fill_hex : ℕ → ℕ → List ℕ → List ℕ
fill_hex zero v buf = buf
fill_hex (suc i) v buf = fill_hex i (v / 2 ^ 4) (set buf i (segment_at (v % 16)))

-- The array `newbuf` is not initialised: `junk` is what it holds.
unfoldable pub render_hex : List ℕ → ℕ → ℕ → Option (List ℕ)
render_hex junk digit_count value =
    if leb (hex_limit digit_count 1) value then none else some (fill_hex digit_count value junk)
