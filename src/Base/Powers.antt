-- ===== src/Base/Powers.antt =====
-- Quotients by powers.
use native.Mathlib.Nat.{pow-suc, div-div-eq-div-mul}
use blusys.Base.{ℕ, suc, ◌/◌, ◌^◌, ◌≡◌, ap, arith}

pub div-pow : (b v k : ℕ) → v / b / b ^ k ≡ v / b ^ suc k
div-pow b v k = rw (div-div-eq-div-mul, pow-suc) (ap (λ (t : ℕ). v / t) (grind arith))
