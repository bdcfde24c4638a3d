-- ===== src/Hal/OneWire/Tests.antt =====
-- The theorems about components/blusys/src/hal/one_wire.c at concrete inputs.
use blusys.Base.{◌<◌, ◌≡◌, refl, false, none, some, [], ◌∷◌, arith}
use blusys.Hal.Error.{ok, err_timeout, EspErr}
use blusys.Hal.OneWire.Crc.{crc_bits, crc_from, crc8}
use blusys.Hal.OneWire.CrcRegister.{stages_of, shift_all, message_bits, cleared, crc8-shift_all}
use blusys.Hal.OneWire.Defs.{OneWire, Env, State, done, fail, no_rom}
use blusys.Hal.OneWire.Slots.{byte_slots, slots_byte, detect_presence}
use blusys.Hal.OneWire.Bus.{
  reset, enter, take_lock, arm_and_tx, transmit_armed, rx_wait, rx_done_cb,
}
use blusys.Hal.OneWire.Rom.{search_devices, or_search_reset, search_round}
use blusys.Hal.OneWire.Idle.{IsIdle, locked}
use blusys.Hal.OneWire.Session.{op_reset, op_search, op_write_byte, calls, calls-IsIdle}
use blusys.Hal.OneWire.SearchState.{Outcome, search_devices-Outcome}
use blusys.Hal.OneWire.Waveform.{slots_byte-byte_slots}

abbrev idle_handle : OneWire
idle_handle = record {
  closing = false;
  rx_sym_buf = [];
  rx_sym_count = 0;
  waiting = false;
  search_rom = no_rom;
  search_last_discrepancy = 0;
  search_last_device_flag = false;
}

abbrev idle_state : State
idle_state = record { ow = idle_handle; trace = [] }

-- One device, whose presence pulse answers a reset and which answers each read slot with 1.
abbrev device : Env
device = record {
  take = λ t. ok;
  give = λ t. ok;
  receive = λ t. EspErr.esp_ok;
  transmit = λ t. EspErr.esp_ok;
  tx_done = λ t. EspErr.esp_ok;
  capture = λ t. some (record { level0 = 1; duration0 = 30; level1 = 0; duration1 = 120 } ∷ []);
}

-- Nobody answers.
abbrev silent : Env
silent = record device { capture = λ t. none }

reset-device : (reset device idle_state).0 ≡ done tt
unfolding reset enter take_lock arm_and_tx transmit_armed rx_wait detect_presence rx_done_cb
reset-device = refl

reset-silent : (reset silent idle_state).0 ≡ fail err_timeout
unfolding reset enter take_lock arm_and_tx transmit_armed rx_wait
reset-silent = refl

search_devices-silent : (search_devices silent idle_state).0 ≡ fail err_timeout
unfolding search_devices or_search_reset search_round reset enter take_lock arm_and_tx
    transmit_armed rx_wait
search_devices-silent = refl

calls-IsIdle_example : IsIdle (
    calls ((device, op_reset) ∷ (silent, op_search) ∷ (device, op_write_byte 0x44) ∷ []) idle_state)
unfolding locked
calls-IsIdle_example =
    calls-IsIdle ((device, op_reset) ∷ (silent, op_search) ∷ (device, op_write_byte 0x44) ∷ [])
      idle_state (record { not_waiting = refl; unlocked = refl })

search_devices-Outcome_example : Outcome (search_devices device idle_state)
search_devices-Outcome_example = search_devices-Outcome device idle_state

-- The ROM of a sensor: its last byte is the CRC of the seven before.
rom_crc : crc8 (0x02 ∷ 0x1C ∷ 0xB8 ∷ 0x01 ∷ 0x00 ∷ 0x00 ∷ 0x00 ∷ []) ≡ 0xA2
unfolding crc8 crc_from crc_bits
rom_crc = refl

crc8-shift_all_example :
    (crc8 (0x28 ∷ 0xFF ∷ 0x4B ∷ []) < 256)
    × (stages_of (crc8 (0x28 ∷ 0xFF ∷ 0x4B ∷ []))
        ≡ shift_all (message_bits (0x28 ∷ 0xFF ∷ 0x4B ∷ [])) cleared)
crc8-shift_all_example = crc8-shift_all (0x28 ∷ 0xFF ∷ 0x4B ∷ [])

slots_byte-byte_slots_example : slots_byte 8 0 8 (byte_slots 8 0 0xCC) 0 ≡ 0xCC
slots_byte-byte_slots_example = slots_byte-byte_slots 0xCC (omega arith)
