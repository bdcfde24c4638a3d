-- ===== src/Hal/GpioExpander/Bus.antt =====
-- The bus transactions of components/blusys/src/hal/gpio_expander.c.
use blusys.Base.{ℕ, ◌*◌, ◌%◌, ◌^◌, List, [], ◌∷◌, ◌==◌, if◌then◌else◌, bit_or}
use blusys.Hal.Error.{BlusysErr, ok}
use blusys.Hal.Result.{Returned, done, fail}
use blusys.Hal.GpioExpander.Defs.{
  Env, State, i2c_write, i2c_read, i2c_write_read, spi_transfer, log_call, low_byte, high_byte,
  join_bytes,
}

abbrev pub reg_iodir : ℕ
reg_iodir = 0x00

abbrev pub reg_iocon : ℕ
reg_iocon = 0x0A

abbrev pub reg_gpio : ℕ
reg_gpio = 0x12

abbrev pub reg_olat : ℕ
reg_olat = 0x14

unfoldable pub opcode_write : ℕ → ℕ
opcode_write hw_addr = bit_or 0x40 (hw_addr * 2 % 2 ^ 8)

unfoldable pub opcode_read : ℕ → ℕ
opcode_read hw_addr = bit_or (bit_or 0x40 (hw_addr * 2 % 2 ^ 8)) 0x01

-- A value that a read has delivered.
abbrev pub on_ok : BlusysErr → ℕ → Returned ℕ
on_ok err v = if err == ok then done v else fail err

module _ (env : Env) where
  -- `blusys_i2c_master_write`, at the handle's address.
  unfoldable pub i2c_master_write : List ℕ → State → BlusysErr × State
  i2c_master_write bytes s =
      let err = env.write s.trace in
      let e = s.expander in (err, log_call (i2c_write e.i2c_address bytes e.timeout_ms err) s)

  -- `blusys_i2c_master_write_read` of one register number and two bytes, joined.
  unfoldable pub i2c_master_write_read : ℕ → State → Returned ℕ × State
  i2c_master_write_read reg s =
      let (err, d0, d1) = env.write_read s.trace in
      let e = s.expander in
      (on_ok err (join_bytes d0 d1), log_call (i2c_write_read e.i2c_address reg e.timeout_ms err) s)

  unfoldable pub mcp23s17_write : ℕ → ℕ → State → BlusysErr × State
  mcp23s17_write reg byte s =
      let (err, d0, d1) = env.transfer s.trace in
      (err, log_call (spi_transfer (opcode_write (s.expander.hw_addr) ∷ reg ∷ byte ∷ []) err) s)

  unfoldable pub mcp23s17_write2 : ℕ → ℕ → ℕ → State → BlusysErr × State
  mcp23s17_write2 reg d0 d1 s =
      let (err, r0, r1) = env.transfer s.trace in
      (err, log_call (spi_transfer (opcode_write (s.expander.hw_addr) ∷ reg ∷ d0 ∷ d1 ∷ []) err) s)

  -- The two bytes, joined as every caller joins them.
  unfoldable pub mcp23s17_read2 : ℕ → State → Returned ℕ × State
  mcp23s17_read2 reg s =
      let (err, d0, d1) = env.transfer s.trace in
      (
        on_ok err (join_bytes d0 d1),
        log_call (spi_transfer (opcode_read (s.expander.hw_addr) ∷ reg ∷ 0 ∷ 0 ∷ []) err) s,
      )

  unfoldable pub pcf857x_write_port : State → BlusysErr × State
  pcf857x_write_port s = i2c_master_write (low_byte (s.expander.output_latch) ∷ []) s

  unfoldable pub pcf857x_read_port : State → Returned ℕ × State
  pcf857x_read_port s =
      let (err, byte) = env.read s.trace in
      let e = s.expander in (on_ok err byte, log_call (i2c_read e.i2c_address e.timeout_ms err) s)

  unfoldable pub mcp23017_write_iodir : State → BlusysErr × State
  mcp23017_write_iodir s =
      let m = s.expander.dir_mask in i2c_master_write (reg_iodir ∷ low_byte m ∷ high_byte m ∷ []) s

  unfoldable pub mcp23017_write_olat : State → BlusysErr × State
  mcp23017_write_olat s =
      let m = s.expander.output_latch in
      i2c_master_write (reg_olat ∷ low_byte m ∷ high_byte m ∷ []) s

  unfoldable pub mcp23017_read_gpio : State → Returned ℕ × State
  mcp23017_read_gpio = i2c_master_write_read reg_gpio
