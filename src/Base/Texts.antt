-- ===== src/Base/Texts.antt =====
-- Equality of lists of bytes, as a test.
use blusys.Base.{
  ℕ, ◌≡◌, ◌≢◌, refl, Bool, true, false, ◌&&◌, List, [], ◌∷◌, ◌==◌, arith, Bool-cases, inl, inr,
}

unfoldable pub same : List ℕ → List ℕ → Bool
same [] [] = true
same [] (d ∷ q) = false
same (c ∷ p) [] = false
same (c ∷ p) (d ∷ q) = c == d && same p q

pub same_self : (p : List ℕ) → same p p ≡ true
unfolding same
same_self [] = refl
same_self (c ∷ p) = ground (arith, same_self p)

pub same-eq : (p q : List ℕ) → same p q ≡ true → p ≡ q
unfolding same
same-eq [] [] h = refl
same-eq [] (d ∷ q) h = absurd (ground (arith, h))
same-eq (c ∷ p) [] h = absurd (ground (arith, h))
same-eq (c ∷ p) (d ∷ q) h = ground (arith, h, same-eq p q)

pub same-ne : (p q : List ℕ) → p ≢ q → same p q ≡ false
same-ne p q ne = elim (Bool-cases (same p q)) [ inl e ↦ absurd (ne (same-eq p q e)) | inr e ↦ e ]
