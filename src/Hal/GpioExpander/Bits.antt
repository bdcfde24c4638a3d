-- ===== src/Hal/GpioExpander/Bits.antt =====
-- The bits that a pin's mask sets and clears in a 16-bit register.
use blusys.Base.{
  ◌∙◌, ℕ, ◌^◌, ◌≤◌, ◌<◌, bit_and, bit_or, bit_xor, ◌≡◌, refl, not, ◌&&◌, ◌||◌, arith, ◌==◌,
}
use blusys.Base.Bits.{test_bit, test_bit-bit_and, test_bit-bit_or, test_bit-bit_xor, test_bit-pow}
use blusys.Base.Bits.Masks.{bit_or-lt, bit_and-lt, test_bit-ones, pow_lt}
use blusys.Hal.GpioExpander.Defs.{pin_bit, clear_bit}

pub pin_bit_lem : (pin : ℕ) → pin < 16 → pin_bit pin ≡ 2 ^ pin
pin_bit_lem pin h = let e = pow_lt pin 16 h in omega (arith, e)

pub test_bit-set :
    (x pin i : ℕ) → pin < 16 → test_bit (bit_or x (pin_bit pin)) i ≡ (test_bit x i || (i == pin))
test_bit-set x pin i h =
    test_bit-bit_or i x (pin_bit pin) ∙ rw (pin_bit_lem pin h, test_bit-pow pin i) refl

pub test_bit-clear :
    (x pin i : ℕ)
    → pin < 16
    → i < 16
    → test_bit (clear_bit x (pin_bit pin)) i ≡ (test_bit x i && not (i == pin))
unfolding clear_bit
test_bit-clear x pin i h hi =
    test_bit-bit_and i x (bit_xor (pin_bit pin) 0xFFFF)
    ∙ rw (test_bit-bit_xor i (pin_bit pin) 0xFFFF, pin_bit_lem pin h, test_bit-pow pin i)
        (ground (arith, test_bit-ones 16 i))

pub test_bit-low : (x i : ℕ) → i < 8 → test_bit (bit_and x 0xFF) i ≡ test_bit x i
test_bit-low x i h = ground (arith, test_bit-bit_and i x 0xFF, test_bit-ones 8 i)

pub set-lt : (n x pin : ℕ) → x < 2 ^ n → pin < n → n ≤ 16 → bit_or x (pin_bit pin) < 2 ^ n
set-lt n x pin hx hp hn =
    rw (pin_bit_lem pin (omega arith)) (bit_or-lt n x (2 ^ pin) hx (pow_lt pin n hp))

pub clear-lt : (n x bit : ℕ) → x < 2 ^ n → clear_bit x bit < 2 ^ n
unfolding clear_bit
clear-lt n x bit h = bit_and-lt n x (bit_xor bit 0xFFFF) h
