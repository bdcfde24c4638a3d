-- ===== src/Drivers/SevenSeg/Hex.antt =====
-- The digits that `render_hex` lays out, against positional notation.
use blusys.Base.{
  ℕ, zero, suc, ◌+◌, ◌/◌, ◌%◌, ◌^◌, ◌≤◌, ◌<◌, ◌≡◌, refl, ◌∙◌, none, some, List, arith, length,
  get_or, set, length-set, get_or-set_self, get_or-set_ne,
}
use blusys.Drivers.SevenSeg.Defs.{max_digits, segment_at}
use blusys.Drivers.SevenSeg.Render.{hex_limit, fill_hex, render_hex}
use native.Mathlib.Nat.{div-one}
use blusys.Base.Powers.{div-pow}

hex_limit_lem : (n : ℕ) → n ≤ 8 → hex_limit n 1 ≡ 16 ^ n
unfolding hex_limit
hex_limit_lem zero h = refl
hex_limit_lem (suc zero) h = refl
hex_limit_lem (suc (suc zero)) h = refl
hex_limit_lem (suc (suc (suc zero))) h = refl
hex_limit_lem (suc (suc (suc (suc zero)))) h = refl
hex_limit_lem (suc (suc (suc (suc (suc zero))))) h = refl
hex_limit_lem (suc (suc (suc (suc (suc (suc zero)))))) h = refl
hex_limit_lem (suc (suc (suc (suc (suc (suc (suc zero))))))) h = refl
hex_limit_lem (suc (suc (suc (suc (suc (suc (suc (suc zero)))))))) h = refl
hex_limit_lem (suc (suc (suc (suc (suc (suc (suc (suc (suc n))))))))) h = absurd (omega arith)

fill_hex_after :
    (n v : ℕ) (buf : List ℕ) (p : ℕ) → n ≤ p → get_or (fill_hex n v buf) p 0 ≡ get_or buf p 0
unfolding fill_hex
fill_hex_after zero v buf p h = refl
fill_hex_after (suc m) v buf p h =
    fill_hex_after m (v / 2 ^ 4) (set buf m (segment_at (v % 16))) p (omega arith)
    ∙ get_or-set_ne buf (segment_at (v % 16)) 0 (λ (q : m ≡ p). absurd (omega arith))

fill_hex_lem :
    (n v : ℕ) (buf : List ℕ) (p k : ℕ)
    → p + suc k ≡ n
    → n ≤ length buf
    → get_or (fill_hex n v buf) p 0 ≡ segment_at (v / 16 ^ k % 16)
unfolding fill_hex
fill_hex_lem zero v buf p k e room = absurd (omega arith)
fill_hex_lem (suc m) v buf p zero e room =
    let one : v / 16 ^ zero ≡ v = div-one v in
    let here : m ≡ p = omega arith in
    rw (one, here)
      (fill_hex_after p (v / 2 ^ 4) (set buf p (segment_at (v % 16))) p (omega arith)
        ∙ get_or-set_self buf p (segment_at (v % 16)) 0 (omega arith))
fill_hex_lem (suc m) v buf p (suc k) e room = rw (← div-pow 16 v k) (
    fill_hex_lem m (v / 16) (set buf m (segment_at (v % 16))) p k (omega arith)
      (omega (arith, length-set buf m (segment_at (v % 16)))))

-- A display of n ≤ 8 digits takes exactly the values below 16 ^ n, and then each place shows the
-- hexadecimal digit of its weight, leading zeros included.
pub render_hex_lem :
    (junk : List ℕ) (n value : ℕ)
    → n ≤ 8
    → length junk ≡ max_digits
    → (16 ^ n ≤ value → render_hex junk n value ≡ none)
      × (value < 16 ^ n
          → (render_hex junk n value ≡ some (fill_hex n value junk))
            × ((p k : ℕ)
                → p + suc k ≡ n
                → get_or (fill_hex n value junk) p 0 ≡ segment_at (value / 16 ^ k % 16)))
unfolding render_hex
render_hex_lem junk n value small size =
    rw (hex_limit_lem n small) (
      λ h. ground arith,
      λ h. (ground arith, λ p k e. fill_hex_lem n value junk p k e (omega arith)),
    )
