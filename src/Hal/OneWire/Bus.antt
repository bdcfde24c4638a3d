-- ===== src/Hal/OneWire/Bus.antt =====
-- The bus primitives of components/blusys/src/hal/one_wire.c.
use blusys.Base.{
  ℕ, zero, suc, Bool, true, false, none, some, List, [], ◌∷◌, ◌==◌, if◌then◌else◌, get_or, length,
  take,
}
use blusys.Hal.Error.{
  ok, err_invalid_state, err_timeout, err_io, err_not_found, EspErr, translate_esp_err,
}
use blusys.Hal.OneWire.Defs.{
  Symbol, OneWire, lock_take, lock_give, rmt_receive, rmt_transmit, tx_wait_all_done, rx_disable,
  rx_enable, notify_take, Env, State, done, fail, M, ◌>>=◌, ◌>>◌, return, log_call, set_waiting,
}
use blusys.Hal.OneWire.Slots.{
  read_init_sym, reset_sym, write_slot, byte_slots, slot_bit, no_symbol, slots_byte,
  detect_presence,
}

-- `esp_err != ESP_OK`
abbrev pub failed : EspErr → Bool
failed EspErr.esp_ok = false
failed _ = true

-- `blusys_ow_rx_done_cb`: the receive event as the interrupt handler records it.
unfoldable pub rx_done_cb : List Symbol → OneWire → OneWire
rx_done_cb symbols ow = record ow {
  rx_sym_buf = symbols;
  rx_sym_count = length symbols;
  waiting = false;
}

-- The slots that `blusys_one_wire_read_byte` copies into its transmission.
abbrev pub eight_read_slots : List Symbol
eight_read_slots =
    read_init_sym ∷ read_init_sym ∷ read_init_sym ∷ read_init_sym ∷ read_init_sym ∷ read_init_sym
    ∷ read_init_sym ∷ read_init_sym ∷ []

module _ (env : Env) where
  unfoldable pub take_lock : M (Unit {0})
  take_lock s =
      let e = env.take s.trace in (if e == ok then done tt else fail e, log_call (lock_take e) s)

  unfoldable pub give_lock : State → State
  give_lock s = log_call (lock_give (env.give s.trace)) s

  -- Take the lock, and give up if the handle is being closed.
  unfoldable pub enter : M (Unit {0})
  enter = do
    take_lock
    λ s. if s.ow.closing then (fail err_invalid_state, give_lock s) else (done tt, s)

  -- Once the receiver is armed: transmit, and undo the arming if that fails.
  unfoldable pub transmit_armed : List Symbol → M (Unit {0})
  transmit_armed tx_syms s =
      let e = env.transmit s.trace in
      let s1 = log_call (rmt_transmit tx_syms e) s in
      if failed e
      then (
        fail (translate_esp_err e),
        give_lock (log_call rx_enable (log_call rx_disable (set_waiting false s1))),
      )
      else (done tt, give_lock s1)

  -- `blusys_ow_arm_and_tx`. Both locals of the C function are bound before the tests.
  unfoldable pub arm_and_tx : List Symbol → ℕ → M (Unit {0})
  arm_and_tx tx_syms rx_range_max_ns s =
      let armed = record s { ow = record (s.ow) { rx_sym_count = 0; waiting = true } } in
      let e = env.receive armed.trace in
      let s1 = log_call (rmt_receive rx_range_max_ns e) armed in
      if s.ow.waiting
      then (fail err_invalid_state, give_lock s)
      else if failed e
      then (fail (translate_esp_err e), give_lock (set_waiting false s1))
      else transmit_armed tx_syms s1

  -- `blusys_ow_rx_wait`: no notification, or the interrupt handler has run.
  unfoldable pub rx_wait : M (Unit {0})
  rx_wait s =
      let got = env.capture s.trace in
      let s1 = log_call (notify_take got) s in
      elim got [
        | none ↦ (fail err_timeout, set_waiting false s1)
        | some symbols ↦ (done tt, record s1 { ow = rx_done_cb symbols s1.ow })
      ]

  -- `blusys_ow_tx_only`
  unfoldable pub tx_only : List Symbol → M (Unit {0})
  tx_only tx_syms s =
      let e = env.transmit s.trace in
      let s1 = log_call (rmt_transmit tx_syms e) (set_waiting true s) in
      let s2 = give_lock s1 in
      let e2 = env.tx_done s2.trace in
      let code = translate_esp_err e2 in
      if s.ow.waiting
      then (fail err_invalid_state, give_lock s)
      else if failed e
      then (fail (translate_esp_err e), give_lock (set_waiting false s1))
      else (
        if code == ok then done tt else fail code,
        set_waiting false (log_call (tx_wait_all_done e2) s2),
      )

  unfoldable pub reset : M (Unit {0})
  reset = do
    enter
    arm_and_tx (reset_sym ∷ []) 480000
    rx_wait
    λ s. (
      if detect_presence (take s.ow.rx_sym_count s.ow.rx_sym_buf)
          then done tt
          else fail err_not_found,
      s,
    )

  unfoldable pub write_bit : Bool → M (Unit {0})
  write_bit bit = do enter; tx_only (write_slot bit ∷ [])

  unfoldable pub read_bit : M Bool
  read_bit = do
    enter
    arm_and_tx (read_init_sym ∷ []) 200000
    rx_wait
    λ s. (
      if s.ow.rx_sym_count == 0
          then fail err_io
          else done (slot_bit (get_or s.ow.rx_sym_buf 0 no_symbol)),
      s,
    )

  unfoldable pub write_byte : ℕ → M (Unit {0})
  write_byte byte = do enter; tx_only (byte_slots 8 0 byte)

  unfoldable pub read_byte : M ℕ
  read_byte = do
    enter
    arm_and_tx eight_read_slots 200000
    rx_wait
    λ s. (done (slots_byte 8 0 s.ow.rx_sym_count s.ow.rx_sym_buf 0), s)

  -- The loops of `blusys_one_wire_write` and `blusys_one_wire_read`.
  unfoldable pub write_bytes : List ℕ → M (Unit {0})
  write_bytes [] = return tt
  write_bytes (byte ∷ bytes) = do write_byte byte; write_bytes bytes

  unfoldable pub read_bytes : ℕ → M (List ℕ)
  read_bytes zero = return []
  read_bytes (suc n) = do byte ← read_byte; bytes ← read_bytes n; return (byte ∷ bytes)
