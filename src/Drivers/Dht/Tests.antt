-- ===== src/Drivers/Dht/Tests.antt =====
-- Tests and witnesses for components/blusys/src/drivers/dht.c, with a frame of 65.2 % and 35.1
-- degrees.
use blusys.Base.{
  ℕ, zero, suc, ◌+◌, ◌^◌, ◌<◌, ◌≡◌, refl, Bool, List, [], ◌∷◌, arith, get_or, if◌then◌else◌, true,
  false, ltb,
}
use blusys.Base.{some}
use blusys.Base.Int.{pos, negsuc, ◌-ℤ◌}
use blusys.Hal.Error.{EspErr, ok}
use blusys.Drivers.Dht.Read.{
  Dht, dht22, dht_convert, returned, waits, start_read, read_begin, dht_rx_done_cb, read_timeout,
  read_end, close_begin, close_end,
}
use blusys.Drivers.Dht.Open.{Env, new_dht}
use blusys.Drivers.Dht.Tasks.{
  outside, taking, awaiting, World, DhtEvent, arrives, begins, receives, expires, wakes, gives_up,
  ends, closes, frees, arrive, begin, receive_frame, from_phase, happen, happens,
}
use blusys.Drivers.Dht.Alone.{ByReader, OnlyReader, Alone}
use blusys.Drivers.Dht.Sampled.{IsReady, works, read-Carries}
use blusys.Drivers.Dht.Defs.{Symbol, no_symbol, dht_decode}
use blusys.Drivers.Dht.Decode.{frame_bit, IsFrame, Carries, dht_decode-Carries}

abbrev warm : List ℕ
warm = 2 ∷ 140 ∷ 1 ∷ 95 ∷ 238 ∷ []

warm-IsFrame : IsFrame warm
warm-IsFrame = record { has_length = refl; fits = below }
  where
    below : (k : ℕ) → get_or warm k 0 < 2 ^ 8
    below zero = ground arith
    below (suc zero) = ground arith
    below (suc (suc zero)) = ground arith
    below (suc (suc (suc zero))) = ground arith
    below (suc (suc (suc (suc zero)))) = ground arith
    below (suc (suc (suc (suc (suc k))))) = ground arith

abbrev pulse : Bool → Symbol
pulse bit = record { level0 = 0; duration0 = 50; level1 = 1; duration1 = if bit then 70 else 27 }

-- The pulses of n bits from bit j on.
unfoldable pulses : ℕ → ℕ → List Symbol
pulses zero j = []
pulses (suc n) j = pulse (frame_bit j warm) ∷ pulses n (j + 1)

get_or-pulses :
    (n j k : ℕ) → k < n → get_or (pulses n j) k no_symbol ≡ pulse (frame_bit (j + k) warm)
unfolding pulses
get_or-pulses zero j k h = absurd (omega arith)
get_or-pulses (suc n) j zero h = let e : j + 0 ≡ j = omega arith in rw e refl
get_or-pulses (suc n) j (suc k) h =
    let e : j + 1 + k ≡ j + suc k = omega arith in
    rw (← e) (get_or-pulses n (j + 1) k (omega arith))

is_one-pulse : (bit : Bool) → ltb 40 (pulse bit).duration1 ≡ bit
is_one-pulse true = refl
is_one-pulse false = refl

-- The response, and the pulses of a frame.
abbrev warm_symbols : List Symbol
warm_symbols = record { level0 = 0; duration0 = 80; level1 = 1; duration1 = 80 } ∷ pulses 40 0

warm_symbols-Carries : Carries warm_symbols warm
unfolding Carries
warm_symbols-Carries j hj =
    let next : 1 + j ≡ suc j = omega arith in
    let first : 0 + j ≡ j = omega arith in
    let read : get_or warm_symbols (suc j) no_symbol ≡ pulse (frame_bit j warm) =
      rw first at (get_or-pulses 40 0 j hj) in
    rw (next, read) (is_one-pulse (frame_bit j warm))

warm_decoded : dht_decode warm_symbols 41 [] ≡ (ok, warm)
warm_decoded =
    dht_decode-Carries warm_symbols 41 warm [] (ground arith) warm-IsFrame warm_symbols-Carries

warm_reading : dht_convert dht22 warm ≡ record { temperature = pos 351; humidity = pos 652 }
unfolding dht_convert ◌-ℤ◌
warm_reading = refl

-- 0x8065 is -10.1 degrees.
cold_reading :
    dht_convert dht22 (2 ∷ 140 ∷ 128 ∷ 101 ∷ 115 ∷ [])
    ≡ record { temperature = negsuc 100; humidity = pos 652 }
unfolding dht_convert ◌-ℤ◌
cold_reading = refl

abbrev sensor : Dht
sensor = new_dht dht22

sensor-IsReady : IsReady 5000 sensor
sensor-IsReady = record { is_open = refl; idle = refl; rested = refl }

read-Carries_example :
    let begun = read_begin works 1 5000 sensor in
    let received = dht_rx_done_cb warm_symbols 41 begun.1 in
    let ended = read_end 9000 received.1 in
    (begun.0 ≡ waits)
    × (received.0 ≡ some 1)
    × (ended.0 ≡ (ok, some (dht_convert dht22 warm)))
    × (read_begin works 2 2008999 ended.1 ≡ (returned ok (some (dht_convert dht22 warm)), ended.1))
read-Carries_example =
    read-Carries 1 5000 9000 sensor warm_symbols 41 warm 2 2008999 sensor-IsReady (omega arith)
      warm-IsFrame warm_symbols-Carries refl (omega arith) (omega arith)

abbrev opened : World
opened = record { dht = sensor; freed = false; phase = λ task. outside; notified = λ task. false }

-- A close that comes while a task reads waits until the read has ended.
abbrev closed_while_reading : List DhtEvent
closed_while_reading =
    arrives 1
    ∷ begins 1 works 5000
    ∷ closes ok
    ∷ frees
    ∷ expires 1
    ∷ frees
    ∷ gives_up 1
    ∷ frees
    ∷ []

abbrev closed_while_reading-OnlyReader : OnlyReader 1 closed_while_reading
unfolding OnlyReader ByReader
closed_while_reading-OnlyReader = (refl, (refl, (tt, (tt, (tt, (tt, (tt, (tt, tt))))))))

abbrev closed_while_reading_freed : (happens closed_while_reading opened).freed ≡ true
unfolding happens happen arrive begin from_phase read_begin start_read read_timeout close_begin
    close_end
closed_while_reading_freed = refl

-- A close frees the handle while a task waits for its lock in `blusys_dht_read`.
abbrev closed_at_lock : List DhtEvent
closed_at_lock = arrives 1 ∷ closes ok ∷ frees ∷ []

freed_at_lock :
    ((happens closed_at_lock opened).freed ≡ true)
    × ((happens closed_at_lock opened).phase 1 ≡ taking)
unfolding happens happen arrive close_begin close_end
freed_at_lock = (refl, refl)

-- With two tasks: the interrupt has notified the first one, the second one starts a read, the first
-- one ends its own, and the close frees the handle while the second one waits.
abbrev two_readers : List DhtEvent
two_readers =
    arrives 1
    ∷ begins 1 works 5000
    ∷ receives [] 0
    ∷ arrives 2
    ∷ begins 2 works 5001
    ∷ wakes 1
    ∷ ends 1 5002
    ∷ closes ok
    ∷ frees
    ∷ []

freed_in_read :
    ((happens two_readers opened).freed ≡ true) × ((happens two_readers opened).phase 2 ≡ awaiting)
unfolding happens happen arrive begin receive_frame from_phase read_begin start_read dht_rx_done_cb
    read_end close_begin close_end dht_decode
freed_in_read = (refl, refl)

-- The SDK does not register the interrupt's callback.
abbrev no_callbacks : Env
no_callbacks = record {
  alloc = true;
  alloc_buf = true;
  init = ok;
  sem = true;
  tx_channel = EspErr.esp_ok;
  encoder = EspErr.esp_ok;
  rx_channel = EspErr.esp_ok;
  callbacks = EspErr.fail;
  tx_enabled = EspErr.esp_ok;
  rx_enabled = EspErr.esp_ok;
}
