-- ===== src/Drivers/SevenSeg/Bytes.antt =====
-- The bits of the bytes that the display driver makes: decimal points and MAX7219 segments.
use native.Mathlib.Decide.{ℕ_discrete}
use blusys.Base.{
  ℕ, zero, suc, ◌+◌, ◌*◌, ◌/◌, ◌%◌, ◌^◌, ◌≤◌, ◌<◌, ◌≡◌, refl, ◌∙◌, ap, true, false, List, arith,
  length, get_or, set, length-set, get_or-set_self, get_or-set_ne,
}
use blusys.Base.{bit_and, bit_or}
use blusys.Base.Bits.{
  test_bit, test_bit-bit_and, test_bit-bit_or, test_bit_lem, test_bit_zero, bit_and_1, bit_and_127,
}
use blusys.Drivers.SevenSeg.Wire.{internal_to_max7219}
use blusys.Drivers.SevenSeg.Api.{set_dp_digit, set_dp_loop}

mask_7f : (j : ℕ) → j < 7 → test_bit 0x7F j ≡ true
unfolding test_bit
mask_7f zero h = refl
mask_7f (suc zero) h = refl
mask_7f (suc (suc zero)) h = refl
mask_7f (suc (suc (suc zero))) h = refl
mask_7f (suc (suc (suc (suc zero)))) h = refl
mask_7f (suc (suc (suc (suc (suc zero))))) h = refl
mask_7f (suc (suc (suc (suc (suc (suc zero)))))) h = refl
mask_7f (suc (suc (suc (suc (suc (suc (suc j))))))) h = absurd (omega arith)

mask_80 : (j : ℕ) → j < 7 → test_bit 0x80 j ≡ false
unfolding test_bit
mask_80 zero h = refl
mask_80 (suc zero) h = refl
mask_80 (suc (suc zero)) h = refl
mask_80 (suc (suc (suc zero))) h = refl
mask_80 (suc (suc (suc (suc zero)))) h = refl
mask_80 (suc (suc (suc (suc (suc zero))))) h = refl
mask_80 (suc (suc (suc (suc (suc (suc zero)))))) h = refl
mask_80 (suc (suc (suc (suc (suc (suc (suc j))))))) h = absurd (omega arith)

mask_point : (test_bit 0x7F 7 ≡ false) × (test_bit 0x80 7 ≡ true)
unfolding test_bit
mask_point = (refl, refl)

set_dp_digit-point : (mask i segs : ℕ) → test_bit (set_dp_digit mask i segs) 7 ≡ test_bit mask i
set_dp_digit-point mask i segs = ground (
  arith,
  test_bit_lem i mask,
  test_bit-bit_and 7 segs 0x7F,
  test_bit-bit_or 7 segs 0x80,
  mask_point,
)

set_dp_digit-segment :
    (mask i segs j : ℕ) → j < 7 → test_bit (set_dp_digit mask i segs) j ≡ test_bit segs j
set_dp_digit-segment mask i segs j h =
    ground
      (arith, test_bit-bit_and j segs 0x7F, test_bit-bit_or j segs 0x80, mask_7f j h, mask_80 j h)

set_dp_loop_before :
    (n i mask : ℕ) (buf : List ℕ) (k : ℕ)
    → k < i
    → get_or (set_dp_loop n i mask buf) k 0 ≡ get_or buf k 0
unfolding set_dp_loop
set_dp_loop_before zero i mask buf k h = refl
set_dp_loop_before (suc n) i mask buf k h =
    set_dp_loop_before n (i + 1) mask _ k (omega arith)
    ∙ get_or-set_ne buf (set_dp_digit mask i (get_or buf i 0)) 0
        (λ (q : i ≡ k). absurd (omega arith))

set_dp_loop_at :
    (n i mask : ℕ) (buf : List ℕ) (k : ℕ)
    → i ≤ k
    → k < i + n
    → i + n ≤ length buf
    → get_or (set_dp_loop n i mask buf) k 0 ≡ set_dp_digit mask k (get_or buf k 0)
unfolding set_dp_loop
set_dp_loop_at zero i mask buf k h hk room = absurd (omega arith)
set_dp_loop_at (suc n) i mask buf k h hk room =
    let new = set_dp_digit mask i (get_or buf i 0) in
    elim (ℕ_discrete i k) [
      | yes e ↦ rw (← e) (
          set_dp_loop_before n (i + 1) mask (set buf i new) i (omega arith)
          ∙ get_or-set_self buf i new 0 (omega arith))
      | no ne ↦
          set_dp_loop_at n (i + 1) mask (set buf i new) k (omega arith) (omega arith)
            (omega (arith, length-set buf i new))
          ∙ ap (set_dp_digit mask k) (get_or-set_ne buf new 0 ne)
    ]

-- For each digit of the display, `blusys_seven_seg_set_dp` makes the decimal point the digit's bit of
-- the mask, and leaves its seven segments.
pub set_dp_loop_lem :
    (n mask : ℕ) (buf : List ℕ) (k : ℕ)
    → n ≤ length buf
    → k < n
    → (test_bit (get_or (set_dp_loop n 0 mask buf) k 0) 7 ≡ test_bit mask k)
      × ((j : ℕ)
          → j < 7
          → test_bit (get_or (set_dp_loop n 0 mask buf) k 0) j ≡ test_bit (get_or buf k 0) j)
set_dp_loop_lem n mask buf k room h =
    rw (set_dp_loop_at n 0 mask buf k (omega arith) (omega arith) (omega arith)) (
      set_dp_digit-point mask k (get_or buf k 0),
      λ j hj. set_dp_digit-segment mask k (get_or buf k 0) j hj,
    )

-- The MAX7219 takes the decimal point in bit 0 and segment a to g in bits 1 to 7.
pub internal_to_max7219_lem :
    (b : ℕ)
    → (test_bit (internal_to_max7219 b) 0 ≡ test_bit b 7)
      × ((j : ℕ) → j < 7 → test_bit (internal_to_max7219 b) (suc j) ≡ test_bit b j)
unfolding internal_to_max7219 test_bit
internal_to_max7219_lem b = (point, λ j h. segment j h)
  where
    high : ℕ
    high = bit_and b 0x7F * 2 % 2 ^ 8

    low : ℕ
    low = bit_and (b / 2 ^ 7) 1

    even : test_bit high 0 ≡ false
    even = ground arith

    dp : test_bit low 0 ≡ test_bit b 7
    dp = ground (arith, bit_and_1 (b / 2 ^ 7), test_bit_lem 7 b)

    point : test_bit (bit_or high low) 0 ≡ test_bit b 7
    point = ground (arith, test_bit-bit_or 0 high low, even, dp)

    upper : high / 2 ≡ bit_and b 0x7F
    upper = omega (arith, bit_and_127 b)

    lower : low / 2 ≡ 0
    lower = omega (arith, bit_and_1 (b / 2 ^ 7))

    segment : (j : ℕ) → j < 7 → test_bit (bit_or high low) (suc j) ≡ test_bit b j
    segment j h =
        test_bit-bit_or (suc j) high low
        ∙ rw (upper, lower)
            (ground (arith, test_bit-bit_and j b 0x7F, mask_7f j h, test_bit_zero j))
