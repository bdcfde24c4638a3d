-- ===== src/Drivers/SevenSeg/Defs.antt =====
-- The display handle of components/blusys/src/drivers/seven_seg.c, and the calls that the driver
-- makes of the SDK. Those calls are recorded in a trace, in the order in which they are made. What
-- they return is decided by an environment that sees the trace so far: it is a parameter of every
-- operation.
use blusys.Base.{ℕ, Bool, List, [], ◌∷◌, ◌++◌, get_or}
use blusys.Base.Int.{ℤ}
use blusys.Hal.Error.{BlusysErr, EspErr}

abbrev pub max_digits : ℕ
max_digits = 8

-- `s_segments`: bit 0 is segment a, bit 6 segment g, bit 7 the decimal point.
abbrev pub segments : List ℕ
segments =
    0x3F ∷ 0x06 ∷ 0x5B ∷ 0x4F ∷ 0x66 ∷ 0x6D ∷ 0x7D ∷ 0x07 ∷ 0x7F ∷ 0x6F ∷ 0x77 ∷ 0x7C ∷ 0x39 ∷ 0x5E
    ∷ 0x79 ∷ 0x71 ∷ []

-- s_segments[i]; every use has i < 16.
unfoldable pub segment_at : ℕ → ℕ
segment_at i = get_or segments i 0

abbrev pub seg_blank : ℕ
seg_blank = 0x00

abbrev pub seg_minus : ℕ
seg_minus = 0x40

abbrev pub reg_digit0 : ℕ
reg_digit0 = 0x01

abbrev pub reg_decode_mode : ℕ
reg_decode_mode = 0x09

abbrev pub reg_intensity : ℕ
reg_intensity = 0x0A

abbrev pub reg_scan_limit : ℕ
reg_scan_limit = 0x0B

abbrev pub reg_shutdown : ℕ
reg_shutdown = 0x0C

abbrev pub reg_disp_test : ℕ
reg_disp_test = 0x0F

-- `blusys_seven_seg_driver_t`; `unknown` is any other value of the enum's integer.
pub data Driver : Type 0 where
  gpio hc595 max7219 unknown : Driver

-- A pin is an int, and -1 is none.
abbrev pub Pin : Type 0
Pin = ℤ

-- `struct blusys_seven_seg`, less its lock, whose calls are in the trace. `has_timer` and
-- `has_spi_dev` say whether the two SDK handles are non-NULL.
pub record Display : Type 0 where
  pub driver : Driver
  pub digit_count : ℕ
  pub buf : List ℕ
  pub common_pins : List Pin
  pub common_anode : Bool
  pub has_timer : Bool
  pub active_digit : ℕ
  pub seg_pins : List Pin
  pub data_pin : Pin
  pub clk_pin : Pin
  pub latch_pin : Pin
  pub has_spi_dev : Bool

-- `report_oom` is the counter and the log line of `seven_seg_oom`; see Observe.
pub data Call : Type 0 where
  set_level : Pin → ℕ → Call
  set_output : Pin → Call
  gpio_reset : Pin → Call
  spi_transmit : ℕ → ℕ → Call
  spi_bus_initialize : Pin → Pin → Call
  spi_bus_add_device : Pin → Call
  spi_bus_remove_device spi_bus_free : Call
  lock_init lock_deinit lock_take lock_give : Call
  timer_create timer_start_periodic timer_stop timer_delete : Call
  alloc report_oom free : Call

abbrev pub Trace : Type 0
Trace = List Call

-- `esp` and `err` give the result of an SDK call and of a call of another blusys module made after
-- a trace, `pin_valid` is GPIO_IS_VALID_OUTPUT_GPIO, and `has_memory` whether `calloc` succeeds.
pub record Env : Type 0 where
  pub esp : Trace → Call → EspErr
  pub err : Trace → Call → BlusysErr
  pub pin_valid : Pin → Bool
  pub has_memory : Bool

-- A call is made: it stands last in the trace.
infixl 60 ◌▷◌
abbrev pub ◌▷◌ : Trace → Call → Trace
t ▷ c = t ++ c ∷ []
