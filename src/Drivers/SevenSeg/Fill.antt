-- ===== src/Drivers/SevenSeg/Fill.antt =====
-- The loop that fills decimal digits from the right, and its bound. A place p of n digits has the
-- weight k with p + k + 1 = n.
use native.Mathlib.Nat.{div-one, zero-div}
use blusys.Base.{
  ℕ, zero, suc, ◌+◌, ◌/◌, ◌%◌, ◌^◌, ◌≤◌, ◌≡◌, refl, ◌∙◌, true, List, arith, ltb, ◌==◌,
  if◌then◌else◌, Bool-cases, inl, inr, length, get_or, set, length-set, get_or-set_self,
  get_or-set_ne,
}
use blusys.Base.Powers.{div-pow}
use blusys.Drivers.SevenSeg.Defs.{segment_at}
use blusys.Drivers.SevenSeg.Render.{decimal_limit, fill_digits}

-- The loop's bound, an unsigned int, is the power of ten for every display.
pub decimal_limit_lem : (n : ℕ) → n ≤ 8 → decimal_limit n 1 ≡ 10 ^ n
unfolding decimal_limit
decimal_limit_lem zero h = refl
decimal_limit_lem (suc zero) h = refl
decimal_limit_lem (suc (suc zero)) h = refl
decimal_limit_lem (suc (suc (suc zero))) h = refl
decimal_limit_lem (suc (suc (suc (suc zero)))) h = refl
decimal_limit_lem (suc (suc (suc (suc (suc zero))))) h = refl
decimal_limit_lem (suc (suc (suc (suc (suc (suc zero)))))) h = refl
decimal_limit_lem (suc (suc (suc (suc (suc (suc (suc zero))))))) h = refl
decimal_limit_lem (suc (suc (suc (suc (suc (suc (suc (suc zero)))))))) h = refl
decimal_limit_lem (suc (suc (suc (suc (suc (suc (suc (suc (suc n))))))))) h = absurd (omega arith)

pub fill_digits-length : (n v : ℕ) (buf : List ℕ) → length (fill_digits n v buf).0 ≡ length buf
unfolding fill_digits
fill_digits-length zero v buf = refl
fill_digits-length (suc p) v buf = ground (
  arith,
  fill_digits-length p (v / 10) (set buf p (segment_at (v % 10))),
  length-set buf p (segment_at (v % 10)),
)

fill_digits_after :
    (n v : ℕ) (buf : List ℕ) (p : ℕ) → n ≤ p → get_or (fill_digits n v buf).0 p 0 ≡ get_or buf p 0
unfolding fill_digits
fill_digits_after zero v buf p h = refl
fill_digits_after (suc m) v buf p h = elim (Bool-cases (v == 0)) [
  | inl e ↦ rw e refl
  | inr e ↦ rw e (
      fill_digits_after m (v / 10) (set buf m (segment_at (v % 10))) p (omega arith)
      ∙ get_or-set_ne buf (segment_at (v % 10)) 0 (λ (q : m ≡ p). absurd (omega arith)))
]

pub zero_digit : (v k : ℕ) → (v == 0) ≡ true → (v / 10 ^ k == 0) ≡ true
zero_digit v k e = let z : v ≡ 0 = ground arith in rw z (ground (arith, zero-div (10 ^ k)))

-- The place with weight k gets its digit, unless the number has no digit there.
pub fill_digits_lem :
    (n v : ℕ) (buf : List ℕ) (p k : ℕ)
    → p + suc k ≡ n
    → n ≤ length buf
    → get_or (fill_digits n v buf).0 p 0
      ≡ (if v / 10 ^ k == 0 then get_or buf p 0 else segment_at (v / 10 ^ k % 10))
unfolding fill_digits
fill_digits_lem zero v buf p k e room = absurd (omega arith)
fill_digits_lem (suc m) v buf p zero e room = elim (Bool-cases (v == 0)) [
  | inl z ↦ rw (z, zero_digit v zero z) refl
  | inr z ↦
      let one : v / 10 ^ zero ≡ v = div-one v in
      let here : m ≡ p = omega arith in
      rw (z, one, z, here)
        (fill_digits_after p (v / 10) (set buf p (segment_at (v % 10))) p (omega arith)
          ∙ get_or-set_self buf p (segment_at (v % 10)) 0 (omega arith))
]
fill_digits_lem (suc m) v buf p (suc k) e room = elim (Bool-cases (v == 0)) [
  | inl z ↦ rw (z, zero_digit v (suc k) z) refl
  | inr z ↦
      let s = segment_at (v % 10) in
      rw (z, ← div-pow 10 v k)
        (fill_digits_lem m (v / 10) (set buf m s) p k (omega arith)
            (omega (arith, length-set buf m s))
          ∙ (let far : get_or (set buf m s) p 0 ≡ get_or buf p 0 =
                get_or-set_ne buf s 0 (λ (q : m ≡ p). absurd (omega arith)) in
              rw far))
]

pub fill_digits_left-le : (n v : ℕ) (buf : List ℕ) → (fill_digits n v buf).1 ≤ n
unfolding fill_digits
fill_digits_left-le zero v buf = omega arith
fill_digits_left-le (suc m) v buf =
    ground (arith, fill_digits_left-le m (v / 10) (set buf m (segment_at (v % 10))))

-- The places left are those whose weight is above the number's digits.
pub fill_digits_left :
    (n v : ℕ) (buf : List ℕ) (p k : ℕ)
    → p + suc k ≡ n
    → (ltb p (fill_digits n v buf).1) ≡ (v / 10 ^ k == 0)
unfolding fill_digits
fill_digits_left zero v buf p k e = absurd (omega arith)
fill_digits_left (suc m) v buf p zero e = elim (Bool-cases (v == 0)) [
  | inl z ↦ rw (z, zero_digit v zero z) (ground arith)
  | inr z ↦
      let one : v / 10 ^ zero ≡ v = div-one v in
      rw (z, one, z)
        (ground (arith, fill_digits_left-le m (v / 10) (set buf m (segment_at (v % 10)))))
]
fill_digits_left (suc m) v buf p (suc k) e = elim (Bool-cases (v == 0)) [
  | inl z ↦ rw (z, zero_digit v (suc k) z) (ground arith)
  | inr z ↦
      rw (z, ← div-pow 10 v k)
        (fill_digits_left m (v / 10) (set buf m (segment_at (v % 10))) p k (omega arith))
]
