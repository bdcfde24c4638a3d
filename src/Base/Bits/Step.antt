-- ===== src/Base/Bits/Step.antt =====
-- One equation for the lowest digit of each bitwise operation. The native operations are a
-- recursion on binary digits, `bitwise`, with its first argument as fuel; one law of that
-- recursion, whose premise says what happens when the first number has no digit left, gives all
-- three.
use Prim.Native.Nat.{digits, bitwise, bit_and-bitwise, bit_or-bitwise, bit_xor-bitwise, differ}
use blusys.Base.{
  ℕ, zero, suc, ◌+◌, ◌*◌, ◌/◌, ◌%◌, ◌≤◌, ◌<◌, min, max, bit_and, bit_or, bit_xor, ◌≡◌, refl, sym,
  ◌∙◌, ap, arith,
}

module _ (rest : ℕ → ℕ) (op : ℕ → ℕ → ℕ) where
  -- Any fuel from the first number on gives the same digits.
  enough :
      (top fuel x y : ℕ) → fuel ≤ top → x ≤ fuel → digits rest op fuel x y ≡ bitwise rest op x y
  enough top zero zero y low fits = refl
  enough top zero (suc x) y low fits = absurd (omega arith)
  enough top (suc fuel) zero y low fits = refl
  enough zero (suc fuel) (suc x) y low fits = absurd (omega arith)
  enough (suc top) (suc fuel) (suc x) y low fits =
      let half = suc x / 2 in
      let more = enough top fuel half (y / 2) (omega arith) (omega arith) in
      let less = enough top x half (y / 2) (omega arith) (omega arith) in
      ap (λ (high : ℕ). high * 2 + op (suc x % 2) (y % 2)) (more ∙ sym less)

  lowest_digit :
      ((y : ℕ) → rest y ≡ rest (y / 2) * 2 + op 0 (y % 2))
      → (x y : ℕ) → bitwise rest op x y ≡ bitwise rest op (x / 2) (y / 2) * 2 + op (x % 2) (y % 2)
  lowest_digit none_left zero y = none_left y
  lowest_digit none_left (suc x) y =
      ap (λ (high : ℕ). high * 2 + op (suc x % 2) (y % 2))
        (enough x x (suc x / 2) (y / 2) (omega arith) (omega arith))

pub bit_or_step : (x y : ℕ) → bit_or x y ≡ bit_or (x / 2) (y / 2) * 2 + max (x % 2) (y % 2)
bit_or_step x y = simp bit_or-bitwise (lowest_digit (λ r. r) max (λ r. omega arith) x y)

pub bit_and_step : (x y : ℕ) → bit_and x y ≡ bit_and (x / 2) (y / 2) * 2 + min (x % 2) (y % 2)
bit_and_step x y = simp bit_and-bitwise (lowest_digit (λ r. 0) min (λ r. omega arith) x y)

-- On single digits `differ` is the sum without its carry.
differ_lem : (x y : ℕ) → x < 2 → y < 2 → (x + y) % 2 ≡ differ x y
differ_lem zero zero hx hy = refl
differ_lem zero (suc zero) hx hy = refl
differ_lem (suc zero) zero hx hy = refl
differ_lem (suc zero) (suc zero) hx hy = refl
differ_lem x (suc (suc y)) hx hy = absurd (omega arith)
differ_lem (suc (suc x)) y hx hy = absurd (omega arith)

pub bit_xor_step : (x y : ℕ) → bit_xor x y ≡ bit_xor (x / 2) (y / 2) * 2 + (x % 2 + y % 2) % 2
bit_xor_step x y =
    rw (differ_lem (x % 2) (y % 2) (omega arith) (omega arith))
      (simp bit_xor-bitwise (lowest_digit (λ r. r) differ (λ r. omega arith) x y))
