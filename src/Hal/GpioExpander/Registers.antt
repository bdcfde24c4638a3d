-- ===== src/Hal/GpioExpander/Registers.antt =====
-- The invariant of the handle in components/blusys/src/hal/gpio_expander.c: the cached registers
-- fit the chip, and on a PCF8574 the latch is high at each input pin.
use blusys.Base.{◌∙◌, ap, sym, refl, ℕ, ◌^◌, ◌≤◌, ◌<◌, bit_and, bit_or, ◌≡◌, true, arith}
use blusys.Base.Bits.{test_bit, test_bit-bit_or}
use blusys.Hal.GpioExpander.Defs.{
  Ic, pcf8574, pcf8574a, mcp23017, mcp23s17, other_ic, Direction, output, input, other_dir,
  Expander, pin_bit,
}
use blusys.Hal.GpioExpander.Bits.{test_bit-set, test_bit-clear, test_bit-low, set-lt, clear-lt}
use blusys.Hal.GpioExpander.Pins.{direction_mask, direction_latch}

-- The pins of each chip; what is no chip has none, and cannot be opened.
unfoldable pub pins_of : Ic → ℕ
pins_of pcf8574 = 8
pins_of pcf8574a = 8
pins_of other_ic = 0
pins_of _ = 16

-- On a PCF8574 an input pin's latch bit is high.
abbrev pub HighAtInputs : ℕ → ℕ → Type 0
HighAtInputs dir latch = (i : ℕ) → i < 8 → test_bit dir i ≡ true → test_bit latch i ≡ true

unfoldable pub InputsHigh : Ic → ℕ → ℕ → Type 0
InputsHigh pcf8574 dir latch = HighAtInputs dir latch
InputsHigh pcf8574a dir latch = HighAtInputs dir latch
InputsHigh _ dir latch = Unit {0}

-- The cached registers of a chip.
pub record Registers (ic : Ic) (dir latch : ℕ) : Type 0 where
  pub latch_fits : latch < 2 ^ pins_of ic
  pub dir_fits : dir < 2 ^ pins_of ic
  pub inputs_high : InputsHigh ic dir latch

pub record Holds (ic : Ic) (e : Expander) : Type 0 where
  pub ic_kept : e.ic ≡ ic
  pub pins : e.pin_count ≡ pins_of ic
  pub registers : Registers ic e.dir_mask e.output_latch

pub high_direction :
    (dir : Direction) (pin d l : ℕ)
    → pin < 8
    → HighAtInputs d l
    → HighAtInputs (direction_mask dir d (pin_bit pin)) (direction_latch dir l (pin_bit pin))
unfolding direction_mask direction_latch
high_direction output pin d l hp h i hi t = h i hi (ground (arith, t, test_bit-clear d pin i))
high_direction input pin d l hp h i hi t =
    ground
      (arith, t, h i hi, test_bit-set d pin i (omega arith), test_bit-set l pin i (omega arith))
high_direction other_dir pin d l hp h i hi t = h i hi (ground (arith, t, test_bit-clear d pin i))

pub mask_fits :
    (dir : Direction) (n pin d : ℕ)
    → pin < n
    → n ≤ 16
    → d < 2 ^ n
    → direction_mask dir d (pin_bit pin) < 2 ^ n
unfolding direction_mask
mask_fits output n pin d hp hn h = clear-lt n d (pin_bit pin) h
mask_fits input n pin d hp hn h = set-lt n d pin h hp hn
mask_fits other_dir n pin d hp hn h = clear-lt n d (pin_bit pin) h

pub latch_fits_lem :
    (dir : Direction) (n pin l : ℕ)
    → pin < n
    → n ≤ 16
    → l < 2 ^ n
    → direction_latch dir l (pin_bit pin) < 2 ^ n
unfolding direction_latch
latch_fits_lem output n pin d hp hn h = h
latch_fits_lem input n pin d hp hn h = set-lt n d pin h hp hn
latch_fits_lem other_dir n pin d hp hn h = h

-- A latch written with the input pins forced high.
pub high_forced : (d l : ℕ) → HighAtInputs d (bit_or l (bit_and d 0xFF))
high_forced d l i hi t =
    ground (arith, t, test_bit-bit_or i l (bit_and d 0xFF), test_bit-low d i hi)

-- The same handle with other cached registers.
pub keep :
    (ic : Ic) (e : Expander) (d l : ℕ)
    → Holds ic e
    → Registers ic d l
    → Holds ic (record e { dir_mask = d; output_latch = l })
keep ic e d l h r = record { ic_kept = h.ic_kept; pins = h.pins; registers = r }

pub at_ic : (ic : Ic) (e : Expander) → Holds ic e → Holds e.ic e
at_ic ic e h = record {
  ic_kept = refl;
  pins = h.pins ∙ ap pins_of (sym h.ic_kept);
  registers = rw (h.ic_kept) h.registers;
}

pub pins_le : (ic : Ic) → pins_of ic ≤ 16
unfolding pins_of
pins_le pcf8574 = omega arith
pins_le pcf8574a = omega arith
pins_le mcp23017 = omega arith
pins_le mcp23s17 = omega arith
pins_le other_ic = omega arith
