-- ===== src/Hal/GpioExpander/Defs.antt =====
-- The handle of components/blusys/src/hal/gpio_expander.c, and the calls that the driver makes of
-- the heap, of its lock and of the bus. Calls are recorded in a trace, newest first, with their
-- results, which an environment that sees the trace so far decides.
use blusys.Base.{ℕ, Bool, true, false, List, ◌∷◌, ◌*◌, ◌/◌, ◌%◌, ◌^◌, bit_and, bit_or, bit_xor}
use blusys.Base.Int.{ℤ}
use blusys.Hal.Error.{BlusysErr}

-- `blusys_gpio_expander_ic_t`; `other_ic` is a value that is none of the enumerators.
pub data Ic : Type 0 where
  pcf8574 pcf8574a mcp23017 mcp23s17 other_ic : Ic

-- `blusys_gpio_expander_dir_t`
pub data Direction : Type 0 where
  output input other_dir : Direction

-- `struct blusys_gpio_expander` less the bus handles and the lock.
pub record Expander : Type 0 where
  pub ic : Ic
  pub i2c_address : ℕ
  pub hw_addr : ℕ
  pub timeout_ms : ℤ
  pub output_latch : ℕ
  pub dir_mask : ℕ
  pub pin_count : ℕ

pub data Call : Type 0 where
  allocated freed lock_deinit lock_give : Call
  lock_init : BlusysErr → Call
  lock_take : ℤ → BlusysErr → Call
  i2c_write : ℕ → List ℕ → ℤ → BlusysErr → Call
  i2c_read : ℕ → ℤ → BlusysErr → Call
  i2c_write_read : ℕ → ℕ → ℤ → BlusysErr → Call
  spi_transfer : List ℕ → BlusysErr → Call

abbrev pub Trace : Type 0
Trace = List Call

-- The numbers are the bytes that a read delivers: one for `i2c_read`, two for `i2c_write_read`, and
-- the third and fourth of an SPI transfer.
pub record Env : Type 0 where
  pub alloc : Bool
  pub init : BlusysErr
  pub take : Trace → BlusysErr
  pub write : Trace → BlusysErr
  pub read : Trace → BlusysErr × ℕ
  pub write_read : Trace → BlusysErr × ℕ × ℕ
  pub transfer : Trace → BlusysErr × ℕ × ℕ

pub record State : Type 0 where
  pub expander : Expander
  pub trace : Trace

abbrev pub log_call : Call → State → State
log_call c s = record s { trace = c ∷ s.trace }

abbrev pub set_latch : ℕ → State → State
set_latch v s = record s { expander = record (s.expander) { output_latch = v } }

abbrev pub set_dir : ℕ → State → State
set_dir v s = record s { expander = record (s.expander) { dir_mask = v } }

-- `(uint8_t)(x & 0xFFu)` and `(uint8_t)(x >> 8u)`
abbrev pub low_byte : ℕ → ℕ
low_byte x = bit_and x 0xFF

abbrev pub high_byte : ℕ → ℕ
high_byte x = x / 2 ^ 8 % 2 ^ 8

-- `(uint16_t)d0 | ((uint16_t)d1 << 8u)`
abbrev pub join_bytes : ℕ → ℕ → ℕ
join_bytes d0 d1 = bit_or d0 (d1 * 2 ^ 8 % 2 ^ 16)

-- `(uint16_t)(1u << pin)`
abbrev pub pin_bit : ℕ → ℕ
pin_bit pin = 2 ^ pin % 2 ^ 16

-- `x & (uint16_t)~bit`
unfoldable pub clear_bit : ℕ → ℕ → ℕ
clear_bit x bit = bit_and x (bit_xor bit 0xFFFF)

unfoldable pub is_pcf : Ic → Bool
is_pcf pcf8574 = true
is_pcf pcf8574a = true
is_pcf _ = false
