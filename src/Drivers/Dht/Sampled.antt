-- ===== src/Drivers/Dht/Sampled.antt =====
-- A read of components/blusys/src/drivers/dht.c from its start to its reading, and the next one.
use blusys.Base.{
  ℕ, ◌+◌, ◌<◌, ◌≤◌, ◌≡◌, refl, ap, ◌∙◌, true, false, none, some, List, [], arith, ◌==◌, get_or,
  if_true, if_false,
}
use blusys.Hal.Error.{EspErr, ok}
use blusys.Drivers.Dht.Defs.{Symbol, checksum, dht_decode}
use blusys.Drivers.Dht.Decode.{IsFrame, Carries, dht_decode-Carries}
use blusys.Drivers.Dht.Read.{
  Dht, Env, Begun, returned, waits, is_waiting, is_fresh, start_read, read_begin, dht_rx_done_cb,
  read_end, dht_convert,
}

-- The lock, the receiver and the transmitter work.
abbrev pub works : Env
works = record { lock_err = ok; receive = EspErr.esp_ok; transmit = EspErr.esp_ok }

-- A handle on which a read can start now.
pub record IsReady (now_us : ℕ) (d : Dht) : Type 0 where
  pub is_open : d.closing ≡ false
  pub idle : d.waiting_task ≡ none
  pub rested : is_fresh now_us d ≡ false

abbrev pub started : ℕ → Dht → Dht
started task d = record d { rx_sym_count = 0; waiting_task = some task; read_done = false }

read_begin-waits :
    (task now_us : ℕ) (d : Dht)
    → IsReady now_us d
    → read_begin works task now_us d ≡ (waits, started task d)
unfolding read_begin start_read
read_begin-waits task now_us d r =
    if_false (λ (x : Begun × Dht). x ≡ (waits, started task d)) d.closing _ _ r.is_open
      (if_false (λ (x : Begun × Dht). x ≡ (waits, started task d)) (is_fresh now_us d) _ _ r.rested
        (if_false (λ (x : Begun × Dht). x ≡ (waits, started task d)) (is_waiting d.waiting_task) _ _
          (ap is_waiting r.idle) refl))

-- What a read that gets these bytes leaves.
abbrev pub sampled : ℕ → List ℕ → Dht → Dht
sampled later_us bytes d = record d {
  last_reading = dht_convert d.kind bytes;
  last_read_us = later_us;
  read_done = true;
}

read_end-sampled :
    (later_us : ℕ) (bytes : List ℕ) (d : Dht)
    → dht_decode d.rx_sym_buf d.rx_sym_count [] ≡ (ok, bytes)
    → read_end later_us d ≡ ((ok, some (dht_convert d.kind bytes)), sampled later_us bytes d)
unfolding read_end
read_end-sampled later_us bytes d e = rw e refl

read_begin-cached :
    (task now_us : ℕ) (d : Dht)
    → d.closing ≡ false
    → is_fresh now_us d ≡ true
    → read_begin works task now_us d ≡ (returned ok (some d.last_reading), d)
unfolding read_begin
read_begin-cached task now_us d c f =
    if_false (λ (x : Begun × Dht). x ≡ (returned ok (some d.last_reading), d)) d.closing _ _ c
      (if_true (λ (x : Begun × Dht). x ≡ (returned ok (some d.last_reading), d)) (is_fresh now_us d)
        _ _ f refl)

-- A read on an open handle that no read waits on and whose last reading is too old, with the lock and
-- the peripheral working: it waits; the interrupt of a complete frame with a right checksum notifies
-- its task; it returns the frame's bytes, converted; and for two seconds a read by any task returns the
-- same at once and changes nothing.
pub read-Carries :
    (task now_us later_us : ℕ) (d : Dht) (symbols : List Symbol) (count : ℕ) (bytes : List ℕ)
    (other soon_us : ℕ)
    → IsReady now_us d
    → 41 ≤ count
    → IsFrame bytes
    → Carries symbols bytes
    → checksum bytes ≡ get_or bytes 4 0
    → 0 < later_us
    → soon_us < later_us + 2000000
    → let begun = read_begin works task now_us d in
      let received = dht_rx_done_cb symbols count begun.1 in
      let ended = read_end later_us received.1 in
      (begun.0 ≡ waits)
      × (received.0 ≡ some task)
      × (ended.0 ≡ (ok, some (dht_convert d.kind bytes)))
      × (read_begin works other soon_us ended.1
          ≡ (returned ok (some (dht_convert d.kind bytes)), ended.1))
unfolding dht_rx_done_cb
read-Carries task now_us later_us d symbols count bytes other soon_us r h f c sum past soon =
    let begun = read_begin-waits task now_us d r in
    let received : Dht = record (started task d) {
      rx_sym_buf = symbols;
      rx_sym_count = count;
      waiting_task = none;
    } in
    let same : checksum bytes == get_or bytes 4 0 ≡ true = ground (arith, sum) in
    let decoded : dht_decode symbols count [] ≡ (ok, bytes) =
      dht_decode-Carries symbols count bytes [] h f c ∙ rw same refl in
    let ended = read_end-sampled later_us bytes received decoded in
    let fresh : is_fresh soon_us (sampled later_us bytes received) ≡ true =
      ground (arith, past, soon) in
    rw (begun, ended)
      (
        refl,
        refl,
        refl,
        read_begin-cached other soon_us (sampled later_us bytes received) r.is_open fresh,
      )
