-- ===== src/Drivers/Dht/Decode.antt =====
-- The bytes that dht_decode of components/blusys/src/drivers/dht.c reads from a frame.
use blusys.Base.{
  ℕ, zero, suc, ◌+◌, ◌-◌, ◌*◌, ◌/◌, ◌%◌, ◌^◌, ◌<◌, ◌≤◌, bit_or, ◌≡◌, refl, sym, ◌∙◌, ap, Bool, true,
  false, ◌&&◌, ◌||◌, List, arith, ◌==◌, ltb, if◌then◌else◌, get_or, length, length-set,
  get_or-set_self, get_or-set_ne, get_or_ext, replicate, leb, if_both, Bool-cases, inl, inr,
}
use blusys.Base.Bits.{test_bit, test_bit-bit_or, test_bit-pow, test_bit_ext, test_bit_zero}
use blusys.Base.Bits.Masks.{pow_lt, bit_or-lt}
use native.Mathlib.Decide.{ℕ_discrete}
use blusys.Hal.Error.{ok, err_io}
use blusys.Drivers.Dht.Defs.{Symbol, is_one, put_bit, decode_bits, checksum, dht_decode}

-- Bit j of a frame, the highest bit of each byte first.
unfoldable pub frame_bit : ℕ → List ℕ → Bool
frame_bit j bytes = test_bit (get_or bytes (j / 8) 0) (7 - j % 8)

-- Five bytes.
pub record IsFrame (bytes : List ℕ) : Type 0 where
  pub has_length : length bytes ≡ 5
  pub fits : (k : ℕ) → get_or bytes k 0 < 2 ^ 8

pow_small : (i : ℕ) → 2 ^ (7 - i % 8) % 2 ^ 8 ≡ 2 ^ (7 - i % 8)
pow_small i = omega (arith, pow_lt (7 - i % 8) 8 (omega arith))

put_bit-IsFrame : (i : ℕ) (bytes : List ℕ) → i < 40 → IsFrame bytes → IsFrame (put_bit i bytes)
unfolding put_bit
put_bit-IsFrame i bytes h f =
    let v = bit_or (get_or bytes (i / 8) 0) (2 ^ (7 - i % 8) % 2 ^ 8) in
    record {
      has_length = length-set bytes (i / 8) v ∙ f.has_length;
      fits = λ k. elim (ℕ_discrete (i / 8) k) [
        | yes e ↦
            rw (← e, get_or-set_self bytes (i / 8) v 0 (omega (arith, f.has_length)))
              (bit_or-lt 8 _ _ (f.fits (i / 8)) (omega arith))
        | no ne ↦ rw (get_or-set_ne bytes v 0 ne) (f.fits k)
      ];
    }

or_comm : (a b : Bool) → ((a || b) ≡ (b || a))
or_comm true true = refl
or_comm true false = refl
or_comm false true = refl
or_comm false false = refl

and_true_or : (a b : Bool) → ((a || b) ≡ ((a && true) || b))
and_true_or true b = refl
and_true_or false b = refl

and_false_or : (a b : Bool) → (b ≡ ((a && false) || b))
and_false_or true b = refl
and_false_or false b = refl

-- Putting bit i changes no other bit of a frame.
frame_bit-put_bit :
    (i j : ℕ) (bytes : List ℕ)
    → i < 40
    → IsFrame bytes
    → frame_bit j (put_bit i bytes) ≡ ((j == i) || frame_bit j bytes)
unfolding put_bit frame_bit
frame_bit-put_bit i j bytes h f =
    let v = bit_or (get_or bytes (i / 8) 0) (2 ^ (7 - i % 8) % 2 ^ 8) in
    elim (ℕ_discrete (i / 8) (j / 8)) [
      | yes e ↦
          let same : ((7 - j % 8 == 7 - i % 8) ≡ (j == i)) = ground (arith, e) in
          rw
            (
              ← e,
              get_or-set_self bytes (i / 8) v 0 (omega (arith, f.has_length)),
              test_bit-bit_or,
              pow_small i,
              test_bit-pow,
              same,
            )
            (or_comm (test_bit (get_or bytes (i / 8) 0) (7 - j % 8)) (j == i))
      | no ne ↦
          let other : (j == i) ≡ false = ground (arith, ap (λ (n : ℕ). n / 8)) in
          rw (get_or-set_ne bytes v 0 ne, other) refl
    ]

-- The loop leaves a frame whose bits from i on are those of the symbols, put on those that were there.
decode_bits-IsFrame :
    (symbols : List Symbol) (rounds i : ℕ) (bytes : List ℕ)
    → i + rounds ≤ 40
    → IsFrame bytes
    → IsFrame (decode_bits symbols rounds i bytes)
unfolding decode_bits
decode_bits-IsFrame symbols zero i bytes h f = f
decode_bits-IsFrame symbols (suc rounds) i bytes h f =
    decode_bits-IsFrame symbols rounds (i + 1) _ (omega arith)
      (if_both IsFrame (is_one symbols i) (put_bit-IsFrame i bytes (omega arith) f) f)

frame_bit-round :
    (symbols : List Symbol) (i j : ℕ) (bytes : List ℕ)
    → i < 40
    → IsFrame bytes
    → frame_bit j (if is_one symbols i then put_bit i bytes else bytes)
      ≡ ((j == i && is_one symbols i) || frame_bit j bytes)
frame_bit-round symbols i j bytes h f = elim (Bool-cases (is_one symbols i)) [
  | inl e ↦ rw (e, frame_bit-put_bit i j bytes h f) (and_true_or (j == i) (frame_bit j bytes))
  | inr e ↦ rw e (and_false_or (j == i) (frame_bit j bytes))
]

-- The bits of one round and of those after it are the bits of all.
window-suc :
    (p : ℕ → Bool) (i j rounds : ℕ) (b : Bool)
    → ((leb (i + 1) j && ltb j (i + 1 + rounds) && p j) || ((j == i && p i) || b))
      ≡ ((leb i j && ltb j (i + suc rounds) && p j) || b)
window-suc p i j rounds b = elim (ℕ_discrete j i) [
  | yes e ↦
      let e1 : leb (i + 1) i ≡ false = ground arith in
      let e2 : (i == i) ≡ true = ground arith in
      let e3 : leb i i ≡ true = ground arith in
      let e4 : ltb i (i + suc rounds) ≡ true = ground arith in rw (e, e1, e2, e3, e4) refl
  | no ne ↦
      let e1 : leb (i + 1) j ≡ leb i j = ground (arith, ne) in
      let e2 : (j == i) ≡ false = ground (arith, ne) in
      let e3 : i + 1 + rounds ≡ i + suc rounds = omega arith in rw (e1, e2, e3) refl
]

frame_bit-decode_bits :
    (symbols : List Symbol) (rounds i j : ℕ) (bytes : List ℕ)
    → i + rounds ≤ 40
    → IsFrame bytes
    → frame_bit j (decode_bits symbols rounds i bytes)
      ≡ ((leb i j && ltb j (i + rounds) && is_one symbols j) || frame_bit j bytes)
unfolding decode_bits
frame_bit-decode_bits symbols zero i j bytes h f = ground arith
frame_bit-decode_bits symbols (suc rounds) i j bytes h f =
    frame_bit-decode_bits symbols rounds (i + 1) j _ (omega arith)
      (if_both IsFrame (is_one symbols i) (put_bit-IsFrame i bytes (omega arith) f) f)
    ∙ ap (λ (b : Bool). (leb (i + 1) j && ltb j (i + 1 + rounds) && is_one symbols j) || b)
        (frame_bit-round symbols i j bytes (omega arith) f)
    ∙ window-suc (is_one symbols) i j rounds (frame_bit j bytes)

-- The symbols behind the response are the pulses of a frame: those of a one last over 40 microseconds.
unfoldable pub Carries : List Symbol → List ℕ → Type 0
Carries symbols bytes = (j : ℕ) → j < 40 → is_one symbols j ≡ frame_bit j bytes

get_or-zeros : (n k : ℕ) → get_or {A = ℕ} (replicate n 0) k 0 ≡ 0
get_or-zeros zero k = refl
get_or-zeros (suc n) zero = refl
get_or-zeros (suc n) (suc k) = get_or-zeros n k

zeros-IsFrame : IsFrame (replicate 5 0)
zeros-IsFrame = record { has_length = refl; fits = λ k. rw (get_or-zeros 5 k) (omega arith) }

frame_bit-zeros : (j : ℕ) → frame_bit j (replicate 5 0) ≡ false
unfolding frame_bit
frame_bit-zeros j = rw (get_or-zeros 5 (j / 8)) (test_bit_zero (7 - j % 8))

frame_ext :
    (xs ys : List ℕ)
    → IsFrame xs
    → IsFrame ys
    → ((j : ℕ) → j < 40 → frame_bit j xs ≡ frame_bit j ys)
    → xs ≡ ys
unfolding frame_bit
frame_ext xs ys fx fy h = get_or_ext 0 xs ys (fx.has_length ∙ sym fy.has_length) (λ k hk.
    test_bit_ext 8 _ _ (fx.fits k) (fy.fits k) (λ i hi.
      let byte : (k * 8 + (7 - i)) / 8 ≡ k = omega arith in
      let place : 7 - (k * 8 + (7 - i)) % 8 ≡ i = omega arith in
      rw (byte, place) at (h (k * 8 + (7 - i)) (omega (arith, fx.has_length)))))

decode_bits-Carries :
    (symbols : List Symbol) (bytes : List ℕ)
    → IsFrame bytes
    → Carries symbols bytes
    → decode_bits symbols 40 0 (replicate 5 0) ≡ bytes
unfolding Carries
decode_bits-Carries symbols bytes f c =
    frame_ext _ bytes (decode_bits-IsFrame symbols 40 0 (replicate 5 0) (omega arith) zeros-IsFrame)
      f
      (λ j hj.
        let low : leb 0 j ≡ true = ground arith in
        let high : ltb j (0 + 40) ≡ true = ground (arith, hj) in
        frame_bit-decode_bits symbols 40 0 j (replicate 5 0) (omega arith) zeros-IsFrame
        ∙ rw (low, high, frame_bit-zeros j, c j hj) (or_comm (frame_bit j bytes) false))

-- Whatever the lengths of the pulses, a complete frame is read as the bytes that it carries, and is
-- accepted if and only if the last byte is the sum of the others modulo 2 ^ 8.
pub dht_decode-Carries :
    (symbols : List Symbol) (symbol_count : ℕ) (bytes before : List ℕ)
    → 41 ≤ symbol_count
    → IsFrame bytes
    → Carries symbols bytes
    → dht_decode symbols symbol_count before
      ≡ (if checksum bytes == get_or bytes 4 0 then ok else err_io, bytes)
unfolding dht_decode
dht_decode-Carries symbols symbol_count bytes before h f c =
    let complete : ltb symbol_count (1 + 40) ≡ false = ground (arith, h) in
    rw (complete, decode_bits-Carries symbols bytes f c)
      (elim (Bool-cases (checksum bytes == get_or bytes 4 0)) [
        | inl e ↦ rw e refl
        | inr e ↦ rw e refl
      ])
