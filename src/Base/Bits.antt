-- ===== src/Base/Bits.antt =====
-- The bits of native numbers: `bit_and`, `bit_or` and `bit_xor` act on each bit alone, and a
-- number below 2 ^ n is known by its n lowest bits.
mod Step
pub mod Masks
use Step.{bit_or_step, bit_and_step, bit_xor_step}
use mathlib.Core.Path.{◌≡⟨◌⟩◌, ◌∎}
use native.Mathlib.Nat.{pow-suc, div-one, add-zero}
use blusys.Base.Powers.{div-pow}
use blusys.Base.{
  ◌∙◌, ℕ, zero, suc, ◌+◌, ◌*◌, ◌/◌, ◌%◌, ◌^◌, ◌≤◌, ◌<◌, min, max, bit_and, bit_or, bit_xor, ◌≡◌,
  refl, ap, Bool, true, false, not, ◌&&◌, ◌||◌, arith, ◌==◌, if◌then◌else◌,
}

-- (x >> i) & 1
unfoldable pub test_bit : ℕ → ℕ → Bool
test_bit x zero = x % 2 == 1
test_bit x (suc i) = test_bit (x / 2) i

abbrev pub xor : Bool → Bool → Bool
xor a b = if a then not b else b

low_or : (a b : ℕ) → ((bit_or a b % 2 == 1) ≡ ((a % 2 == 1) || (b % 2 == 1)))
low_or a b = ground (arith, bit_or_step a b)

half_or : (a b : ℕ) → bit_or a b / 2 ≡ bit_or (a / 2) (b / 2)
half_or a b = omega (arith, bit_or_step a b)

low_and : (a b : ℕ) → ((bit_and a b % 2 == 1) ≡ ((a % 2 == 1) && (b % 2 == 1)))
low_and a b = ground (arith, bit_and_step a b)

half_and : (a b : ℕ) → bit_and a b / 2 ≡ bit_and (a / 2) (b / 2)
half_and a b = omega (arith, bit_and_step a b)

low_xor : (a b : ℕ) → ((bit_xor a b % 2 == 1) ≡ xor (a % 2 == 1) (b % 2 == 1))
low_xor a b = ground (arith, bit_xor_step a b)

pub half_xor : (a b : ℕ) → bit_xor a b / 2 ≡ bit_xor (a / 2) (b / 2)
half_xor a b = omega (arith, bit_xor_step a b)

pub bit_xor_low : (a b : ℕ) → bit_xor a b % 2 ≡ (a % 2 + b % 2) % 2
bit_xor_low a b = omega (arith, bit_xor_step a b)

pub bit_xor-lt : (n a b : ℕ) → a < 2 ^ n → b < 2 ^ n → bit_xor a b < 2 ^ n
bit_xor-lt zero zero zero ha hb = omega arith
bit_xor-lt zero zero (suc b) ha hb = absurd (omega arith)
bit_xor-lt zero (suc a) b ha hb = absurd (omega arith)
bit_xor-lt (suc n) a b ha hb = omega (
  arith,
  bit_xor_step a b,
  pow-suc 2 n,
  bit_xor-lt n (a / 2) (b / 2) (omega (arith, pow-suc 2 n)) (omega (arith, pow-suc 2 n)),
)

pub test_bit-bit_or : (i a b : ℕ) → test_bit (bit_or a b) i ≡ (test_bit a i || test_bit b i)
unfolding test_bit
test_bit-bit_or zero a b = low_or a b
test_bit-bit_or (suc i) a b = rw (half_or a b) (test_bit-bit_or i (a / 2) (b / 2))

pub test_bit-bit_and : (i a b : ℕ) → test_bit (bit_and a b) i ≡ (test_bit a i && test_bit b i)
unfolding test_bit
test_bit-bit_and zero a b = low_and a b
test_bit-bit_and (suc i) a b = rw (half_and a b) (test_bit-bit_and i (a / 2) (b / 2))

pub test_bit-bit_xor : (i a b : ℕ) → test_bit (bit_xor a b) i ≡ xor (test_bit a i) (test_bit b i)
unfolding test_bit
test_bit-bit_xor zero a b = low_xor a b
test_bit-bit_xor (suc i) a b = rw (half_xor a b) (test_bit-bit_xor i (a / 2) (b / 2))

pub test_bit_zero : (i : ℕ) → test_bit 0 i ≡ false
unfolding test_bit
test_bit_zero zero = refl
test_bit_zero (suc i) = test_bit_zero i

-- 1 << k has bit k alone.
pub test_bit-pow : (k i : ℕ) → test_bit (2 ^ k) i ≡ (i == k)
unfolding test_bit
test_bit-pow zero zero = refl
test_bit-pow zero (suc i) = rw (test_bit_zero i) (ground arith)
test_bit-pow (suc k) zero = ground (arith, pow-suc 2 k)
test_bit-pow (suc k) (suc i) =
    let e : 2 ^ suc k / 2 ≡ 2 ^ k = omega (arith, pow-suc 2 k) in
    rw (e, test_bit-pow k i) (ground arith)

pub test_bit_ext :
    (n a b : ℕ) → a < 2 ^ n → b < 2 ^ n → ((i : ℕ) → i < n → test_bit a i ≡ test_bit b i) → a ≡ b
unfolding test_bit
test_bit_ext zero a b ha hb h = omega arith
test_bit_ext (suc n) a b ha hb h =
    let e : a / 2 ≡ b / 2 =
      test_bit_ext n (a / 2) (b / 2) (omega (arith, pow-suc 2 n)) (omega (arith, pow-suc 2 n))
        (λ i hi. h (suc i) (omega arith)) in
    ground (arith, h 0 (omega arith))

-- The bit is what C's `(x >> i) & 1` computes.
pub test_bit_lem : (i x : ℕ) → test_bit x i ≡ (x / 2 ^ i % 2 == 1)
unfolding test_bit
test_bit_lem zero x = rw (div-one x)
test_bit_lem (suc i) x = test_bit_lem i (x / 2) ∙ ap (λ (t : ℕ). t % 2 == 1) (div-pow 2 x i)

-- A mask of low ones is a remainder.
bit_and_zero_lem : (n a : ℕ) → a ≤ n → bit_and a 0 ≡ 0
bit_and_zero_lem n zero h = refl
bit_and_zero_lem zero (suc a) h = absurd (omega arith)
bit_and_zero_lem (suc n) (suc a) h =
    omega (arith, bit_and_step (suc a) 0, bit_and_zero_lem n (suc a / 2) (omega arith))

bit_and_zero : (a : ℕ) → bit_and a 0 ≡ 0
bit_and_zero a = bit_and_zero_lem a a (omega arith)

pub bit_and_1 : (a : ℕ) → bit_and a 1 ≡ a % 2
bit_and_1 a = omega (arith, bit_and_step a 1, bit_and_zero (a / 2))

pub bit_and_3 : (a : ℕ) → bit_and a 3 ≡ a % 4
bit_and_3 a = omega (arith, bit_and_step a 3, bit_and_1 (a / 2))

pub bit_and_7 : (a : ℕ) → bit_and a 7 ≡ a % 8
bit_and_7 a = omega (arith, bit_and_step a 7, bit_and_3 (a / 2))

pub bit_and_15 : (a : ℕ) → bit_and a 15 ≡ a % 16
bit_and_15 a = omega (arith, bit_and_step a 15, bit_and_7 (a / 2))

pub bit_and_31 : (a : ℕ) → bit_and a 31 ≡ a % 32
bit_and_31 a = omega (arith, bit_and_step a 31, bit_and_15 (a / 2))

pub bit_and_63 : (a : ℕ) → bit_and a 63 ≡ a % 64
bit_and_63 a = omega (arith, bit_and_step a 63, bit_and_31 (a / 2))

pub bit_and_127 : (a : ℕ) → bit_and a 127 ≡ a % 128
bit_and_127 a = omega (arith, bit_and_step a 127, bit_and_63 (a / 2))

pub bit_and_255 : (a : ℕ) → bit_and a 255 ≡ a % 256
bit_and_255 a = omega (arith, bit_and_step a 255, bit_and_127 (a / 2))
