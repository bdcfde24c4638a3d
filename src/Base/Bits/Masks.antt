-- ===== src/Base/Bits/Masks.antt =====
-- Bounds of the bitwise operations, and the masks that they are used with.
use native.Mathlib.Nat.{pow-suc, one-le-pow, pow-le-pow_right}
use blusys.Base.Bits.Step.{bit_or_step, bit_and_step}
use blusys.Base.Bits.{test_bit, test_bit_zero}
use blusys.Base.{
  ◌∙◌, ℕ, zero, suc, ◌-◌, ◌/◌, ◌^◌, ◌≤◌, ◌<◌, bit_and, bit_or, ◌≡◌, refl, false, arith, ltb,
}

pub bit_or-lt : (n a b : ℕ) → a < 2 ^ n → b < 2 ^ n → bit_or a b < 2 ^ n
bit_or-lt zero zero zero ha hb = omega arith
bit_or-lt zero zero (suc b) ha hb = absurd (omega arith)
bit_or-lt zero (suc a) b ha hb = absurd (omega arith)
bit_or-lt (suc n) a b ha hb = omega (
  arith,
  bit_or_step a b,
  pow-suc 2 n,
  bit_or-lt n (a / 2) (b / 2) (omega (arith, pow-suc 2 n)) (omega (arith, pow-suc 2 n)),
)

zero_bit_and : (n b : ℕ) → b ≤ n → bit_and 0 b ≡ 0
zero_bit_and n zero h = refl
zero_bit_and zero (suc b) h = absurd (omega arith)
zero_bit_and (suc n) (suc b) h =
    omega (arith, bit_and_step 0 (suc b), zero_bit_and n (suc b / 2) (omega arith))

pub bit_and-lt : (n a b : ℕ) → a < 2 ^ n → bit_and a b < 2 ^ n
bit_and-lt zero zero b ha = omega (arith, zero_bit_and b b (omega arith))
bit_and-lt zero (suc a) b ha = absurd (omega arith)
bit_and-lt (suc n) a b ha = omega (
  arith,
  bit_and_step a b,
  pow-suc 2 n,
  bit_and-lt n (a / 2) (b / 2) (omega (arith, pow-suc 2 n)),
)

-- A mask of n low ones.
pub test_bit-ones : (n i : ℕ) → test_bit (2 ^ n - 1) i ≡ ltb i n
unfolding test_bit
test_bit-ones zero i = test_bit_zero i ∙ ground arith
test_bit-ones (suc n) zero = ground (arith, pow-suc 2 n, one-le-pow n 2 (omega arith))
test_bit-ones (suc n) (suc i) =
    let e : (2 ^ suc n - 1) / 2 ≡ 2 ^ n - 1 =
      omega (arith, pow-suc 2 n, one-le-pow n 2 (omega arith)) in
    rw (e, test_bit-ones n i) (ground arith)

-- A number below 2 ^ n has no bits from n on.
pub test_bit-high : (n a i : ℕ) → a < 2 ^ n → n ≤ i → test_bit a i ≡ false
unfolding test_bit
test_bit-high zero zero i ha hi = test_bit_zero i
test_bit-high zero (suc a) i ha hi = absurd (omega arith)
test_bit-high (suc n) a zero ha hi = absurd (omega arith)
test_bit-high (suc n) a (suc i) ha hi =
    test_bit-high n (a / 2) i (omega (arith, pow-suc 2 n)) (omega arith)

pub pow_lt : (p n : ℕ) → p < n → 2 ^ p < 2 ^ n
pow_lt p n h =
    let mono : 2 ^ suc p ≤ 2 ^ n = pow-le-pow_right (omega arith) (omega arith) in
    omega (arith, mono, pow-suc 2 p, one-le-pow p 2 (omega arith))
