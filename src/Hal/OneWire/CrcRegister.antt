-- ===== src/Hal/OneWire/CrcRegister.antt =====
-- `blusys_one_wire_crc8` of components/blusys/src/hal/one_wire.c against the Dallas/Maxim shift
-- register, whose polynomial is x^8 + x^5 + x^4 + 1.
use blusys.Base.{
  ℕ, zero, suc, ◌/◌, ◌%◌, ◌<◌, ◌≡◌, refl, sym, ◌∙◌, bit_and, bit_xor, Bool, true, false, not, List,
  [], ◌∷◌, ◌++◌, arith, ◌==◌, if◌then◌else◌, Bool-cases, inl, inr, if_true, if_false, ap,
}
use blusys.Base.Bits.{xor, test_bit, test_bit-bit_xor, bit_and_1, bit_xor_low}
use blusys.Hal.OneWire.Crc.{crc_bits, crc_from, crc8, crc8-lt, crc_bits-lt}

-- The eight stages, by the bit of the CRC that each stands for: stage 0 is the one shifted out.
pub record Register : Type 0 where
  pub stage0 : Bool
  pub stage1 : Bool
  pub stage2 : Bool
  pub stage3 : Bool
  pub stage4 : Bool
  pub stage5 : Bool
  pub stage6 : Bool
  pub stage7 : Bool

abbrev pub cleared : Register
cleared = record {
  stage0 = false;
  stage1 = false;
  stage2 = false;
  stage3 = false;
  stage4 = false;
  stage5 = false;
  stage6 = false;
  stage7 = false;
}

-- One bit of the message: what is shifted out is added to it, and the sum goes into the stage at the
-- other end and is added in at the two taps.
unfoldable pub shift_in : Bool → Register → Register
shift_in bit r =
    let feedback = xor r.stage0 bit in
    record {
      stage0 = r.stage1;
      stage1 = r.stage2;
      stage2 = xor r.stage3 feedback;
      stage3 = xor r.stage4 feedback;
      stage4 = r.stage5;
      stage5 = r.stage6;
      stage6 = r.stage7;
      stage7 = feedback;
    }

unfoldable pub shift_all : List Bool → Register → Register
shift_all [] r = r
shift_all (bit ∷ bits) r = shift_all bits (shift_in bit r)

-- So many bits of a byte, the lowest first, and those of a message.
unfoldable pub low_bits : ℕ → ℕ → List Bool
low_bits zero byte = []
low_bits (suc n) byte = (byte % 2 == 1) ∷ low_bits n (byte / 2)

unfoldable pub message_bits : List ℕ → List Bool
message_bits [] = []
message_bits (byte ∷ bytes) = low_bits 8 byte ++ message_bits bytes

-- The stages that hold a byte.
unfoldable pub stages_of : ℕ → Register
stages_of crc = record {
  stage0 = test_bit crc 0;
  stage1 = test_bit crc 1;
  stage2 = test_bit crc 2;
  stage3 = test_bit crc 3;
  stage4 = test_bit crc 4;
  stage5 = test_bit crc 5;
  stage6 = test_bit crc 6;
  stage7 = test_bit crc 7;
}

same_stages :
    (r s : Register)
    → r.stage0 ≡ s.stage0
    → r.stage1 ≡ s.stage1
    → r.stage2 ≡ s.stage2
    → r.stage3 ≡ s.stage3
    → r.stage4 ≡ s.stage4
    → r.stage5 ≡ s.stage5
    → r.stage6 ≡ s.stage6
    → r.stage7 ≡ s.stage7
    → r ≡ s
same_stages r s e0 e1 e2 e3 e4 e5 e6 e7 = λ i. record {
  stage0 = e0 i;
  stage1 = e1 i;
  stage2 = e2 i;
  stage3 = e3 i;
  stage4 = e4 i;
  stage5 = e5 i;
  stage6 = e6 i;
  stage7 = e7 i;
}

xor-false : (b : Bool) → xor b false ≡ b
xor-false true = refl
xor-false false = refl

xor_by : (b f g : Bool) → f ≡ g → xor b f ≡ xor b g
xor_by b f g e = ap (xor b) e

top_bit : (crc : ℕ) → crc < 256 → test_bit (crc / 2) 7 ≡ false
unfolding test_bit
top_bit crc h =
    let e : crc / 2 / 2 / 2 / 2 / 2 / 2 / 2 / 2 ≡ 0 = omega (arith, h) in ap (λ x. x % 2 == 1) e

mixed :
    (crc byte : ℕ)
    → (bit_and (bit_xor crc byte) 0x01 == 0) ≡ not (xor (crc % 2 == 1) (byte % 2 == 1))
mixed crc byte = ground (arith, bit_and_1 (bit_xor crc byte), bit_xor_low crc byte)

-- The rest of a byte whose lowest bit is like the bit that comes.
shifted_out :
    (crc : ℕ) (bit : Bool)
    → crc < 256
    → xor (crc % 2 == 1) bit ≡ false
    → stages_of (crc / 2) ≡ shift_in bit (stages_of crc)
unfolding stages_of shift_in test_bit
shifted_out crc bit h e =
    let kept = λ (b : Bool). sym (xor-false b) ∙ xor_by b false _ (sym e) in
    same_stages (stages_of (crc / 2)) (shift_in bit (stages_of crc)) refl refl
      (kept (test_bit (crc / 2) 2)) (kept (test_bit (crc / 2) 3)) refl refl refl
      (top_bit crc h ∙ sym e)

-- The rest of one whose lowest bit is not, with the polynomial.
fed_back :
    (crc : ℕ) (bit : Bool)
    → crc < 256
    → xor (crc % 2 == 1) bit ≡ true
    → stages_of (bit_xor (crc / 2) 0x8C) ≡ shift_in bit (stages_of crc)
unfolding stages_of shift_in test_bit
fed_back crc bit h e =
    let bit_of = λ (i : ℕ). test_bit-bit_xor i (crc / 2) 0x8C in
    let kept = λ (i : ℕ). xor-false (test_bit (crc / 2) i) in
    let tapped = λ (i : ℕ). xor_by (test_bit (crc / 2) i) true _ (sym e) in
    same_stages (stages_of (bit_xor (crc / 2) 0x8C)) (shift_in bit (stages_of crc))
      (bit_of 0 ∙ kept 0) (bit_of 1 ∙ kept 1) (bit_of 2 ∙ tapped 2) (bit_of 3 ∙ tapped 3)
      (bit_of 4 ∙ kept 4) (bit_of 5 ∙ kept 5) (bit_of 6 ∙ kept 6)
      (bit_of 7 ∙ ap (λ b. xor b true) (top_bit crc h) ∙ sym e)

-- The code's round.
abbrev round : ℕ → ℕ → ℕ
round crc byte =
    let mix = bit_and (bit_xor crc byte) 0x01 in
    if mix == 0 then crc / 2 else bit_xor (crc / 2) 0x8C

round_lem :
    (crc byte : ℕ)
    → crc < 256
    → stages_of (round crc byte) ≡ shift_in (byte % 2 == 1) (stages_of crc)
round_lem crc byte h =
    let P = λ (n : ℕ). stages_of n ≡ shift_in (byte % 2 == 1) (stages_of crc) in
    elim (Bool-cases (xor (crc % 2 == 1) (byte % 2 == 1))) [
      | inl e ↦
          if_false P (bit_and (bit_xor crc byte) 0x01 == 0) _ _ (mixed crc byte ∙ ap not e)
            (fed_back crc (byte % 2 == 1) h e)
      | inr e ↦
          if_true P (bit_and (bit_xor crc byte) 0x01 == 0) _ _ (mixed crc byte ∙ ap not e)
            (shifted_out crc (byte % 2 == 1) h e)
    ]

crc_bits-shift_all :
    (n crc byte : ℕ)
    → crc < 256
    → stages_of (crc_bits n crc byte) ≡ shift_all (low_bits n byte) (stages_of crc)
unfolding crc_bits shift_all low_bits
crc_bits-shift_all zero crc byte h = refl
crc_bits-shift_all (suc n) crc byte h =
    crc_bits-shift_all n (round crc byte) (byte / 2) (round_lt crc byte h)
    ∙ ap (shift_all (low_bits n (byte / 2))) (round_lem crc byte h)
  where
    round_lt : (crc byte : ℕ) → crc < 256 → round crc byte < 256
    round_lt crc byte h = crc_bits-lt 1 crc byte h

shift_all-append :
    (xs ys : List Bool) (r : Register) → shift_all (xs ++ ys) r ≡ shift_all ys (shift_all xs r)
unfolding shift_all
shift_all-append [] ys r = refl
shift_all-append (x ∷ xs) ys r = shift_all-append xs ys (shift_in x r)

crc_from-shift_all :
    (crc : ℕ) (bytes : List ℕ)
    → crc < 256
    → stages_of (crc_from crc bytes) ≡ shift_all (message_bits bytes) (stages_of crc)
unfolding crc_from shift_all message_bits
crc_from-shift_all crc [] h = refl
crc_from-shift_all crc (byte ∷ bytes) h =
    crc_from-shift_all (crc_bits 8 crc byte) bytes (crc_bits-lt 8 crc byte h)
    ∙ ap (shift_all (message_bits bytes)) (crc_bits-shift_all 8 crc byte h)
    ∙ sym (shift_all-append (low_bits 8 byte) (message_bits bytes) (stages_of crc))

-- The CRC of a block is the byte that the Dallas/Maxim shift register for x^8 + x^5 + x^4 + 1 holds when the
-- block's bits, the lowest of each byte first, have been shifted into it from all stages clear.
pub crc8-shift_all :
    (bytes : List ℕ)
    → (crc8 bytes < 256) × (stages_of (crc8 bytes) ≡ shift_all (message_bits bytes) cleared)
unfolding crc8 stages_of test_bit
crc8-shift_all bytes = (crc8-lt bytes, crc_from-shift_all 0 bytes (omega arith))
