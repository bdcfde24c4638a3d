-- ===== src/Drivers/SevenSeg/Updates.antt =====
-- The operations of components/blusys/src/drivers/seven_seg.c as a whole: what they leave in the
-- buffer and send.
use mathlib.Core.Bool.{false≢true}
use native.Mathlib.Nat.{div-eq_of_lt, pow-suc}
use blusys.Base.{
  ℕ, zero, suc, ◌+◌, ◌-◌, ◌%◌, ◌^◌, ◌≤◌, ◌<◌, ◌≡◌, sym, ◌∙◌, ap, ◌≢◌, Bool, true, false, some, List,
  [], ◌∷◌, ◌++◌, arith, inl, inr, length, get_or, copy_range, copy_range_lem, Option-cases,
}
use mathlib.Core.List.{append_assoc, append-nil}
use blusys.Base.Int.{ℤ, negsuc}
use blusys.Base.Bits.{test_bit}
use blusys.Hal.Error.{ok, err_invalid_arg}
use blusys.Drivers.SevenSeg.Defs.{
  Display, spi_transmit, lock_take, Trace, Env, ◌▷◌, max_digits, reg_digit0,
}
use blusys.Drivers.SevenSeg.Render.{render_int, filler}
use blusys.Drivers.SevenSeg.Wire.{max7219_write, flush_from, max7219_flush, internal_to_max7219}
use blusys.Drivers.SevenSeg.Api.{
  update_buf, write_rendered, seven_seg_write_int, seven_seg_set_dp, set_dp_loop,
}
use blusys.Drivers.SevenSeg.Digits.{
  fits, is_negative, magnitude, shown_at, render_int_refuses, render_int-shown_at,
}
use blusys.Drivers.SevenSeg.Bytes.{set_dp_loop_lem}

-- One register write for each digit of the buffer, from digit i on.
unfoldable pub digit_writes : ℕ → ℕ → List ℕ → Trace
digit_writes zero i buf = []
digit_writes (suc n) i buf =
    spi_transmit ((reg_digit0 + i) % 2 ^ 8) (internal_to_max7219 (get_or buf i 0))
    ∷ digit_writes n (i + 1) buf

flush_from_lem :
    (env : Env) (n i : ℕ) (buf : List ℕ) (t : Trace)
    → (flush_from env n i buf t).0 ≡ ok
    → (flush_from env n i buf t).1 ≡ t ++ digit_writes n i buf
unfolding flush_from digit_writes max7219_write
flush_from_lem env zero i buf t h = sym (append-nil t)
flush_from_lem env (suc n) i buf t h =
    let c = spi_transmit ((reg_digit0 + i) % 2 ^ 8) (internal_to_max7219 (get_or buf i 0)) in
    ground (
      arith,
      flush_from_lem env n (i + 1) buf (t ▷ c),
      append_assoc t (c ∷ []) (digit_writes n (i + 1) buf),
    )

-- A flush that succeeds has written every digit's register once, from the left, with the bits of the
-- buffer in the MAX7219's order.
pub max7219_flush_lem :
    (env : Env) (d : Display) (t : Trace)
    → (max7219_flush env d t).0 ≡ ok
    → (max7219_flush env d t).1 ≡ t ++ digit_writes d.digit_count 0 d.buf
unfolding max7219_flush
max7219_flush_lem env d t h = flush_from_lem env d.digit_count 0 d.buf t h

-- A display as `blusys_seven_seg_open` makes it.
pub record IsOpen (d : Display) : Type 0 where
  pub some_digit : 0 < d.digit_count
  pub few_digits : d.digit_count ≤ max_digits
  pub buf_size : length d.buf ≡ max_digits

-- With the lock taken the new buffer is stored, whatever the flush returns; without it nothing
-- changes and the lock's error is returned.
update_buf_lem :
    (env : Env) (change : List ℕ → List ℕ) (d : Display) (t : Trace)
    → (env.err t lock_take ≡ ok → (update_buf env change d t).1 ≡ record d { buf = change d.buf })
      × (env.err t lock_take ≢ ok
          → update_buf env change d t ≡ (env.err t lock_take, d, t ▷ lock_take))
unfolding update_buf
update_buf_lem env change d t = (λ h. ground arith, λ h. ground arith)

-- Writing a number that does not fit is refused before the lock is taken: nothing is called and
-- nothing changes.
pub seven_seg_write_int_refused :
    (env : Env) (d : Display) (t : Trace) (value : ℤ) (lz : Bool)
    → IsOpen d
    → fits d.digit_count value ≡ false
    → seven_seg_write_int env value lz (some d) t ≡ (err_invalid_arg, some d, t)
unfolding seven_seg_write_int write_rendered
seven_seg_write_int_refused env d t value lz v h =
    rw ((render_int_refuses d.digit_count value lz v.few_digits).1 h)

-- Writing a number that fits, with the lock taken, leaves a display whose every place shows what
-- positional notation puts there: the digits right-aligned, the sign next to them, then the filler.
pub seven_seg_write_int-shown_at :
    (env : Env) (d : Display) (t : Trace) (value : ℤ) (lz : Bool)
    → IsOpen d
    → fits d.digit_count value ≡ true
    → env.err t lock_take ≡ ok
    → (d' : Display) × ((seven_seg_write_int env value lz (some d) t).1 ≡ some d')
      × ((p k : ℕ)
          → p + suc k ≡ d.digit_count
          → get_or d'.buf p 0 ≡ shown_at (is_negative value) (magnitude value) lz k)
unfolding seven_seg_write_int write_rendered
seven_seg_write_int-shown_at env d t value lz v h l =
    elim (Option-cases (render_int d.digit_count value lz)) [
      | inl e ↦
          absurd
            (false≢true (sym ((render_int_refuses d.digit_count value lz v.few_digits).0 e) ∙ h))
      | inr (buf, e) ↦ rw e (
        record d { buf = copy_range 0 d.digit_count 0 buf d.buf },
        ap some ((update_buf_lem env (λ b. copy_range 0 d.digit_count 0 buf b) d t).0 l),
        λ p k q.
            copy_range_lem 0 d.digit_count 0 p buf d.buf (omega arith) (omega arith)
              (omega (arith, v.few_digits, v.buf_size))
            ∙ render_int-shown_at d.digit_count value lz p k v.few_digits q e,
      )
    ]

-- On a display of m + 2 digits a negative number of at most m digits leaves the leftmost place to
-- the filler, a blank or a 0: the minus sign stands next to the digits.
pub render_int-leftmost :
    (m u : ℕ) (lz : Bool) {buf : List ℕ}
    → m + 2 ≤ max_digits
    → suc u < 10 ^ m
    → render_int (suc (suc m)) (negsuc u) lz ≡ some buf
    → get_or buf 0 0 ≡ filler lz
unfolding shown_at
render_int-leftmost m u lz small h e =
    render_int-shown_at (suc (suc m)) (negsuc u) lz 0 (suc m) (omega arith) (omega arith) e
    ∙ (let same : suc m - 1 ≡ m = omega arith in
        rw same (ground (arith, div-eq_of_lt h, div-eq_of_lt (wider h))))
  where
    wider : suc u < 10 ^ m → suc u < 10 ^ suc m
    wider q = omega (arith, pow-suc 10 m)

-- With the lock taken, setting the decimal points makes the point of each digit its bit of the mask,
-- and leaves the seven segments of each digit.
pub seven_seg_set_dp_lem :
    (env : Env) (d : Display) (t : Trace) (mask : ℕ)
    → IsOpen d
    → env.err t lock_take ≡ ok
    → (d' : Display) × ((seven_seg_set_dp env mask (some d) t).1 ≡ some d')
      × ((k : ℕ)
          → k < d.digit_count
          → (test_bit (get_or d'.buf k 0) 7 ≡ test_bit mask k)
            × ((j : ℕ) → j < 7 → test_bit (get_or d'.buf k 0) j ≡ test_bit (get_or d.buf k 0) j))
unfolding seven_seg_set_dp
seven_seg_set_dp_lem env d t mask v l = (
  record d { buf = set_dp_loop d.digit_count 0 mask d.buf },
  ap some ((update_buf_lem env (set_dp_loop d.digit_count 0 mask) d t).0 l),
  λ k h. set_dp_loop_lem d.digit_count mask d.buf k (omega (arith, v.few_digits, v.buf_size)) h,
)
