-- ===== src/Hal/OneWire/Idle.antt =====
-- The bus is left idle: an operation that finds no task waiting and the lock free leaves it so, on
-- every path, whatever the SDK returns.
use blusys.Base.{
  ℕ, zero, suc, ◌≡◌, Bool, true, false, List, [], ◌∷◌, ◌==◌, arith, if◌then◌else◌, take, get_or,
}
use blusys.Hal.Error.{ok, err_not_found, err_io}
use blusys.Hal.OneWire.Defs.{
  Symbol, lock_take, lock_give, Trace, Env, State, Returned, done, fail, M, ◌>>=◌, ◌>>◌, return,
}
use blusys.Hal.OneWire.Bus.{
  take_lock, give_lock, enter, transmit_armed, arm_and_tx, rx_wait, rx_done_cb, tx_only, reset,
  eight_read_slots, write_bit, read_bit, write_byte, read_byte, write_bytes, read_bytes,
}
use blusys.Hal.OneWire.Slots.{
  read_init_sym, reset_sym, write_slot, byte_slots, slot_bit, no_symbol, slots_byte,
  detect_presence,
}

-- Whether the lock is held after the calls of a trace: the newest taking or giving decides.
unfoldable pub locked : Trace → Bool
locked [] = false
locked (lock_take e ∷ t) = if e == ok then true else locked t
locked (lock_give e ∷ t) = false
locked (c ∷ t) = locked t

-- No task is waiting, and the lock is free.
pub record IsIdle (s : State) : Type 0 where
  pub not_waiting : s.ow.waiting ≡ false
  pub unlocked : locked s.trace ≡ false

-- No task is waiting, and the lock is held.
record IsHeld (s : State) : Type 0 where
  not_waiting : s.ow.waiting ≡ false
  held : locked s.trace ≡ true

-- A step that has failed leaves the bus idle; one that has succeeded leaves a state with P.
abbrev pub Ensures : {A : Type 0} → (State → Type 0) → Returned A × State → Type 0
Ensures P (done a, s) = P s
Ensures P (fail e, s) = IsIdle s

-- An operation that keeps the bus idle.
abbrev pub Idles : {A : Type 0} → M A → Type 0
Idles m = (s : State) → IsIdle s → IsIdle (m s).1

pub and_then-Idle :
    {A B : Type 0} (P : State → Type 0) (r : Returned A × State) (f : A → M B)
    → Ensures P r
    → ((a : A) (s : State) → P s → IsIdle (f a s).1)
    → IsIdle (elim r.0 as (λ x. Returned B × State) [ done a ↦ f a r.1 | fail e ↦ (fail e, r.1) ]).1
and_then-Idle P (done a, s) f h k = k a s h
and_then-Idle P (fail e, s) f h k = h

Ensures-done : {A : Type 0} (r : Returned A × State) → Ensures IsIdle r → IsIdle r.1
Ensures-done (done a, s) h = h
Ensures-done (fail e, s) h = h

pub done-Ensures : {A : Type 0} (r : Returned A × State) → IsIdle r.1 → Ensures IsIdle r
done-Ensures (done a, s) h = h
done-Ensures (fail e, s) h = h

pub bind-Idles :
    {A B : Type 0} (m : M A) (f : A → M B) → Idles m → ((a : A) → Idles (f a)) → Idles (m >>= f)
bind-Idles m f hm hf s i = and_then-Idle IsIdle (m s) f (done-Ensures (m s) (hm s i)) hf

module _ (env : Env) where
  enter-Ensures : (s : State) → IsIdle s → Ensures IsHeld (enter env s)
  unfolding enter take_lock give_lock locked
  enter-Ensures s i = ground (arith, i)

  arm_and_tx-Ensures :
      (syms : List Symbol) (range : ℕ) (s : State)
      → IsHeld s
      → Ensures (λ s'. locked s'.trace ≡ false) (arm_and_tx env syms range s)
  unfolding arm_and_tx transmit_armed give_lock locked
  arm_and_tx-Ensures syms range s h = ground (arith, h)

  rx_wait-Ensures : (s : State) → locked s.trace ≡ false → Ensures IsIdle (rx_wait env s)
  unfolding rx_wait rx_done_cb locked
  rx_wait-Ensures s h = ground (arith, h)

  tx_only-Idle : (syms : List Symbol) (s : State) → IsHeld s → IsIdle (tx_only env syms s).1
  unfolding tx_only give_lock locked
  tx_only-Idle syms s h = ground (arith, h)

  -- A bus transaction between `enter` and the end of the wait.
  exchange-Idles :
      {A : Type 0} (syms : List Symbol) (range : ℕ) (k : M A)
      → Idles k
      → Idles (enter env >> (arm_and_tx env syms range >> (rx_wait env >> k)))
  exchange-Idles syms range k hk s i =
      and_then-Idle IsHeld (enter env s) (λ _. arm_and_tx env syms range >> (rx_wait env >> k))
        (enter-Ensures s i)
        (λ _ s1 h1.
          and_then-Idle (λ s'. locked s'.trace ≡ false) (arm_and_tx env syms range s1)
            (λ _. rx_wait env >> k) (arm_and_tx-Ensures syms range s1 h1)
            (λ _ s2 h2.
              and_then-Idle IsIdle (rx_wait env s2) (λ _. k) (rx_wait-Ensures s2 h2)
                (λ _ s3 h3. hk s3 h3)))

  send-Idles : (syms : List Symbol) → Idles (enter env >> tx_only env syms)
  send-Idles syms s i =
      and_then-Idle IsHeld (enter env s) (λ _. tx_only env syms) (enter-Ensures s i)
        (λ _ s1 h1. tx_only-Idle syms s1 h1)

  read_at_end-Idles : {A : Type 0} (f : State → Returned A) → Idles (λ s. (f s, s))
  read_at_end-Idles f s i = i

  pub reset-Idles : Idles (reset env)
  unfolding reset
  reset-Idles s i =
      exchange-Idles (reset_sym ∷ []) 480000
        (λ s. (
          if detect_presence (take s.ow.rx_sym_count s.ow.rx_sym_buf)
              then done tt
              else fail err_not_found,
          s,
        ))
        (λ s i. i) s i

  pub write_bit-Idles : (bit : Bool) → Idles (write_bit env bit)
  unfolding write_bit
  write_bit-Idles bit = send-Idles (write_slot bit ∷ [])

  pub read_bit-Idles : Idles (read_bit env)
  unfolding read_bit
  read_bit-Idles s i =
      exchange-Idles (read_init_sym ∷ []) 200000
        (λ s. (
          if s.ow.rx_sym_count == 0
              then fail err_io
              else done (slot_bit (get_or s.ow.rx_sym_buf 0 no_symbol)),
          s,
        ))
        (λ s i. i) s i

  pub write_byte-Idles : (byte : ℕ) → Idles (write_byte env byte)
  unfolding write_byte
  write_byte-Idles byte = send-Idles (byte_slots 8 0 byte)

  pub read_byte-Idles : Idles (read_byte env)
  unfolding read_byte
  read_byte-Idles s i =
      exchange-Idles eight_read_slots 200000
        (λ s. (done (slots_byte 8 0 s.ow.rx_sym_count s.ow.rx_sym_buf 0), s)) (λ s i. i) s i

  pub write_bytes-Idles : (bytes : List ℕ) → Idles (write_bytes env bytes)
  unfolding write_bytes
  write_bytes-Idles [] s i = i
  write_bytes-Idles (byte ∷ bytes) s i =
      bind-Idles (write_byte env byte) (λ _. write_bytes env bytes) (write_byte-Idles byte)
        (λ _. write_bytes-Idles bytes) s i

  pub read_bytes-Idles : (n : ℕ) → Idles (read_bytes env n)
  unfolding read_bytes
  read_bytes-Idles zero s i = i
  read_bytes-Idles (suc n) s i =
      bind-Idles (read_byte env) (λ byte. read_bytes env n >>= (λ bytes. return (byte ∷ bytes)))
        read_byte-Idles
        (λ byte.
          bind-Idles (read_bytes env n) (λ bytes. return (byte ∷ bytes)) (read_bytes-Idles n)
            (λ bytes s i. i))
        s i
