-- ===== src/Drivers/SevenSeg/Api.antt =====
-- The operations of components/blusys/src/drivers/seven_seg.c on an open display. Each takes the
-- lock, changes the segment buffer, flushes it to a MAX7219, and gives the lock back.
use blusys.Base.{
  ℕ, zero, suc, ◌+◌, Bool, not, ◌||◌, bit_and, bit_or, Option, none, some, List, ltb, ◌==◌,
  if◌then◌else◌, get_or, set, replicate, copy_range,
}
use blusys.Base.Int.{ℤ}
use blusys.Hal.Error.{BlusysErr, ok, err_invalid_arg, err_not_supported}
use blusys.Drivers.SevenSeg.Defs.{
  Display, lock_take, lock_give, Trace, Env, ◌▷◌, max_digits, seg_blank, reg_intensity,
}
use blusys.Drivers.SevenSeg.Render.{render_int, render_hex}
use blusys.Drivers.SevenSeg.Wire.{max7219_write, max7219_flush, bit_of}
use blusys.Drivers.SevenSeg.Life.{is_max7219, Outcome}

-- One round of the loop of `blusys_seven_seg_set_dp`, and the loop from digit i.
abbrev pub set_dp_digit : ℕ → ℕ → ℕ → ℕ
set_dp_digit mask i segs = if bit_of mask i == 0 then bit_and segs 0x7F else bit_or segs 0x80

unfoldable pub set_dp_loop : ℕ → ℕ → ℕ → List ℕ → List ℕ
set_dp_loop zero i mask buf = buf
set_dp_loop (suc n) i mask buf =
    set_dp_loop n (i + 1) mask (set buf i (set_dp_digit mask i (get_or buf i 0)))

module _ (env : Env) where
  -- Take the lock, store a new buffer, flush it, give the lock.
  unfoldable pub update_buf : (List ℕ → List ℕ) → Display → Trace → Outcome
  update_buf change d t =
      let e = env.err t lock_take in
      let d' = record d { buf = change d.buf } in
      let t' = t ▷ lock_take in
      let (fe, ft) = max7219_flush env d' t' in
      if not (e == ok)
      then (e, d, t')
      else if is_max7219 d.driver
      then (fe, d', ft ▷ lock_give)
      else (ok, d', t' ▷ lock_give)

  unfoldable pub write_rendered : Option (List ℕ) → Display → Trace → Outcome
  write_rendered none d t = (err_invalid_arg, d, t)
  write_rendered (some newbuf) d t = update_buf (λ buf. copy_range 0 d.digit_count 0 newbuf buf) d t

  -- The guard `display == NULL` of each operation: a NULL handle is none.
  unfoldable pub on_handle :
      (Display → Trace → Outcome) → Option Display → Trace → BlusysErr × Option Display × Trace
  on_handle op none t = (err_invalid_arg, none, t)
  on_handle op (some d) t = let (e, d', t') = op d t in (e, some d', t')

  unfoldable pub seven_seg_write_int :
      ℤ → Bool → Option Display → Trace → BlusysErr × Option Display × Trace
  unfolding on_handle
  seven_seg_write_int value leading_zeros =
      on_handle (λ d. write_rendered (render_int d.digit_count value leading_zeros) d)

  -- `junk` is what the uninitialised `newbuf` holds.
  unfoldable pub seven_seg_write_hex :
      List ℕ → ℕ → Option Display → Trace → BlusysErr × Option Display × Trace
  unfolding on_handle
  seven_seg_write_hex junk value =
      on_handle (λ d. write_rendered (render_hex junk d.digit_count value) d)

  unfoldable pub write_raw : Option (List ℕ) → ℕ → Display → Trace → Outcome
  write_raw none count d t = (err_invalid_arg, d, t)
  write_raw (some segs) count d t =
      if count == 0 || ltb d.digit_count count
      then (err_invalid_arg, d, t)
      else update_buf (λ buf. copy_range 0 count 0 segs buf) d t

  -- `segs` is none for NULL.
  unfoldable pub seven_seg_write_raw :
      Option (List ℕ) → ℕ → Option Display → Trace → BlusysErr × Option Display × Trace
  unfolding on_handle write_raw
  seven_seg_write_raw segs count = on_handle (write_raw segs count)

  unfoldable pub seven_seg_set_dp : ℕ → Option Display → Trace → BlusysErr × Option Display × Trace
  unfolding on_handle
  seven_seg_set_dp mask = on_handle (λ d. update_buf (set_dp_loop d.digit_count 0 mask) d)

  unfoldable pub seven_seg_clear : Option Display → Trace → BlusysErr × Option Display × Trace
  unfolding on_handle
  seven_seg_clear =
      on_handle (λ d.
        update_buf (λ buf. copy_range 0 d.digit_count 0 (replicate max_digits seg_blank) buf) d)

  unfoldable pub set_brightness : ℕ → Display → Trace → Outcome
  set_brightness level d t =
      let e = env.err t lock_take in
      let (we, wt) = max7219_write env reg_intensity level (t ▷ lock_take) in
      if not (is_max7219 d.driver)
      then (err_not_supported, d, t)
      else if ltb 15 level
      then (err_invalid_arg, d, t)
      else if not (e == ok)
      then (e, d, t ▷ lock_take)
      else (we, d, wt ▷ lock_give)

  unfoldable pub seven_seg_set_brightness :
      ℕ → Option Display → Trace → BlusysErr × Option Display × Trace
  unfolding on_handle set_brightness
  seven_seg_set_brightness level = on_handle (set_brightness level)
