-- ===== src/Hal/GpioExpander/Tests.antt =====
-- The theorems about components/blusys/src/hal/gpio_expander.c at concrete inputs.
use blusys.Base.{
  ℕ, ◌<◌, ◌≡◌, refl, true, false, some, ◌&&◌, ◌||◌, [], ◌∷◌, arith, ◌==◌, if◌then◌else◌,
}
use blusys.Base.Bits.{test_bit}
use blusys.Base.Bits.Masks.{test_bit-ones}
use blusys.Base.Int.{pos}
use blusys.Hal.Error.{ok, err_io}
use blusys.Hal.Result.{done}
use blusys.Hal.GpioExpander.Defs.{pcf8574, mcp23017, Env, State, input, is_pcf}
use blusys.Hal.GpioExpander.Bus.{i2c_master_write_read, mcp23017_read_gpio}
use blusys.Hal.GpioExpander.Open.{Config, open_config}
use blusys.Hal.GpioExpander.Pins.{with_lock, write_pin, read_pin, read_port, read_port_locked}
use blusys.Hal.GpioExpander.Registers.{Holds, pins_of, InputsHigh}
use blusys.Hal.GpioExpander.Reads.{port_level, asked, is_chip, read_pin-read_port}
use blusys.Hal.GpioExpander.Sent.{sent_bit, write_pin-sent}
use blusys.Hal.GpioExpander.Session.{
  op_set_direction, op_write_pin, op_write_port, op_read_port, calls, calls-Holds,
}
use blusys.Hal.GpioExpander.Ready.{DeliversBytes, Opened}
use blusys.Hal.GpioExpander.Opened.{open_config-Opened}

-- A bus on which every transaction succeeds and reads 0x12, 0x34.
abbrev good_bus : Env
good_bus = record {
  alloc = true;
  init = ok;
  take = λ t. ok;
  write = λ t. ok;
  read = λ t. (ok, 0x12);
  write_read = λ t. (ok, 0x12, 0x34);
  transfer = λ t. (ok, 0x12, 0x34);
}

-- The same with no acknowledgement of a write.
abbrev bad_bus : Env
bad_bus = record good_bus { write = λ t. err_io }

abbrev mcp_config : Config
mcp_config = record {
  ic = mcp23017;
  i2c = true;
  i2c_address = 0x21;
  spi = false;
  hw_addr = 0;
  timeout_ms = pos 100;
}

-- A PCF8574 with pins 4 to 7 as inputs.
abbrev pcf : State
pcf = record {
  expander = record {
    ic = pcf8574;
    i2c_address = 0x20;
    hw_addr = 0;
    timeout_ms = pos 100;
    output_latch = 0xFF;
    dir_mask = 0xF0;
    pin_count = 8;
  };
  trace = [];
}

abbrev mcp : State
mcp = record {
  expander = record {
    ic = mcp23017;
    i2c_address = 0x21;
    hw_addr = 0;
    timeout_ms = pos 100;
    output_latch = 0x8001;
    dir_mask = 0x00F0;
    pin_count = 16;
  };
  trace = [];
}

mcp-Holds : Holds mcp23017 mcp.expander
unfolding pins_of InputsHigh
mcp-Holds = record {
  ic_kept = refl;
  pins = refl;
  registers = record { latch_fits = omega arith; dir_fits = omega arith; inputs_high = tt };
}

ff_bit : (i : ℕ) → i < 8 → test_bit 0xF0 i ≡ true → test_bit 0xFF i ≡ true
ff_bit i h t = ground (arith, test_bit-ones 8 i)

pcf-Holds : Holds pcf8574 pcf.expander
unfolding pins_of InputsHigh
pcf-Holds = record {
  ic_kept = refl;
  pins = refl;
  registers = record { latch_fits = omega arith; dir_fits = omega arith; inputs_high = ff_bit };
}

read_port_joins : (read_port good_bus mcp).0 ≡ done 0x3412
unfolding read_port with_lock read_port_locked mcp23017_read_gpio i2c_master_write_read
read_port_joins = refl

read_pin-read_port_example :
    (read_pin good_bus 10 mcp
      ≡ (port_level 10 (read_port good_bus mcp).0, (read_port good_bus mcp).1))
    × (asked mcp23017 mcp.expander ((read_pin good_bus 10 mcp).1.trace)
        ≡ ((ok == ok) && is_chip mcp23017))
read_pin-read_port_example = read_pin-read_port good_bus 10 mcp (omega arith)

calls-Holds_example :
    Holds pcf8574
      (calls
        ((good_bus, op_set_direction 2 input)
          ∷ (bad_bus, op_write_pin 2 false)
          ∷ (good_bus, op_write_port 0)
          ∷ (good_bus, op_read_port)
          ∷ [])
        pcf).expander
calls-Holds_example =
    calls-Holds pcf8574
      ((good_bus, op_set_direction 2 input)
        ∷ (bad_bus, op_write_pin 2 false)
        ∷ (good_bus, op_write_port 0)
        ∷ (good_bus, op_read_port)
        ∷ [])
      pcf pcf-Holds

write_pin-sent_example :
    sent_bit mcp23017 mcp.expander ((write_pin good_bus 15 false mcp).1.trace) 0
    ≡ some
        ((if 0 == 15 then false else test_bit 0x8001 0) || (is_pcf mcp23017 && test_bit 0x00F0 0))
unfolding pins_of
write_pin-sent_example =
    write_pin-sent good_bus mcp23017 15 0 false mcp mcp-Holds (omega arith) (omega arith) refl

good_bus-DeliversBytes : DeliversBytes good_bus
good_bus-DeliversBytes = record {
  write_read_bytes = λ t. (omega arith, omega arith);
  transfer_bytes = λ t. (omega arith, omega arith);
}

open_config-Opened_example : Opened mcp_config [] (open_config good_bus mcp_config [])
open_config-Opened_example = open_config-Opened good_bus good_bus-DeliversBytes mcp_config []
