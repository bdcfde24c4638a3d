-- ===== src/Lib.antt =====
-- The C layer of blusys, an ESP32 component library: observability, hardware abstraction, drivers.
--
-- Parts and how they interact. The observe part (components/blusys/src/observe) counts events for
-- each error domain, filters and renders log lines, and keeps the last lines and the last errors,
-- which a snapshot carries over a restart. The hardware abstraction layer (components/blusys/src/hal)
-- wraps the SDK's peripherals behind handles with a lock and packed error values. The drivers
-- (components/blusys/src/drivers) and the services (components/blusys/src/services) stand on it and
-- report to observe.
--
-- Files.
--   Base, Base/*          shared names, Boolean tests, lists with a default, integers and bits over
--                         the native numbers
--   Hal/Error             blusys_err_t and the translation of ESP-IDF errors; Hal/Result: what a
--                         function returns besides its error
--   Hal/Lifecycle         callback_lifecycle.h, the helpers that drivers with callbacks share;
--                         Protocol: the interleavings of the critical sections that use them
--   Hal/BtStack           bt_stack.c, the ownership of the Bluetooth controller by tasks that interleave;
--                         Exclusive: proofs
--   Hal/Nvs               nvs.c. Flash: the SDK's store, a parameter with its documented laws; Defs: the
--                         operations; Open: opening and closing; Memory: a store that meets the laws;
--                         the rest are proofs
--   Hal/OneWire           one_wire.c. Defs: handle, calls, environment; Slots: waveforms; Bus: reset,
--                         bits, bytes, blocks; Rom: ROM commands and search; Crc: the check; CrcRegister:
--                         the shift register that it stands for; the rest are proofs
--   Hal/GpioExpander      gpio_expander.c. Defs, Bus: handle and transactions; Open: opening and
--                         closing; Pins: operations on an open handle; Api: with NULL handles; the
--                         rest are proofs
--   Observe               counter.c (Counter), snapshot.c (Snapshot), log.c and error_domain.c (Log)
--   Drivers/SevenSeg      seven_seg.c. Defs: display; Render: digits; Wire: what is sent; Life:
--                         opening and closing; Api: the operations; the rest are proofs
--   Drivers/Encoder       encoder.c. Defs: the decoder on GPIO levels; Pcnt: the callbacks of the pulse
--                         counter; the rest are proofs
--   Drivers/Button        button.c. Defs: the running button; Open: opening and closing; Phases: the
--                         runs of its timers and the order of events expected; the rest are proofs
--   Drivers/Dht           dht.c. Defs: the decoding of a frame; Read: the two halves of a read, and the
--                         interrupt; Tasks: the tasks that use a handle; Open: opening and closing; the
--                         rest are proofs
--   Drivers/Buzzer        buzzer.c. Defs: the timer's callback and the operations; Open: opening and
--                         closing; the rest are proofs
--   Drivers/LedStrip      led_strip.c. Defs: chips and pixels; Calls: what is sent; Open: opening and
--                         closing; Frame: the bytes of a strip without a buffer; the rest are proofs
--   Services/Storage      Vfs: the C library's files, a parameter with its documented laws, of which
--                         only a close that succeeds says that the bytes are written; Helpers and
--                         Files: storage_helpers.c; Fs, Fatfs: the operations of fs.c and fatfs.c;
--                         Mount: their mounting; Memory: files in memory, which meet the laws; the
--                         rest are proofs
--   Services/Wifi         wifi.c. Reason: why a station is disconnected; Defs, Sections: the handle and
--                         the critical sections of its tasks; Run: their interleavings; Open: opening
--                         and closing; the rest are proofs
-- A Tests module beside each part holds tests and the theorems at concrete inputs.
--
-- How state is modelled. A handle is a record; a function that changes it returns it. A NULL
-- pointer is none. What the SDK, the lock and the bus return is decided by an environment, a record
-- of functions of the calls made so far, which are recorded in a trace. A function of the source is
-- named without its prefix blusys_ (and without one_wire_ where it works on a handle known to exist).
-- Numbers are natural numbers, with the wrap of the machine type written out; texts are lists of
-- bytes. Loops are recursion on the rounds left, which the source's bounds give, so none needs fuel
-- that could run out. The loop that waits until no callback runs is no function: the Protocol is
-- about what holds once it has ended.
--
-- Not modelled: the SDK, the C library and FreeRTOS (parameters); opening and closing of the 1-Wire
-- bus and the encoder; of the DHT driver the rounding of its floating-point conversion, and
-- what a task does that waits for the lock of a handle while close frees it; of the
-- station the text of its addresses and the events that only tell the client; the other
-- peripherals, drivers and services, and the C++ framework. Concurrency of the observe part is not
-- modelled: its functions are taken as atomic. The callback of the buzzer's timer runs without a
-- break, but for one theorem about a stop that falls into it.
pub mod Base
pub mod Hal
pub mod Observe
pub mod Services
pub mod Drivers
