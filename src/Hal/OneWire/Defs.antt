-- ===== src/Hal/OneWire/Defs.antt =====
-- The bus handle of components/blusys/src/hal/one_wire.c, and the calls that the driver makes of
-- the SDK and of the lock. Calls are recorded in a trace, newest first, with their results. An
-- environment that sees the trace so far decides the results, and what the receiver has captured
-- when a task waits for it.
use blusys.Base.{ℕ, Bool, Option, List, ◌∷◌, replicate}
use blusys.Hal.Error.{BlusysErr, EspErr}
pub use blusys.Hal.Result.{Returned, done, fail}

-- `rmt_symbol_word_t`
pub record Symbol : Type 0 where
  pub level0 : ℕ
  pub duration0 : ℕ
  pub level1 : ℕ
  pub duration1 : ℕ

-- `struct blusys_one_wire` less the SDK handles. `waiting` says whether `waiting_task` is non-NULL;
-- `rx_sym_buf` holds the symbols captured last.
pub record OneWire : Type 0 where
  pub closing : Bool
  pub rx_sym_buf : List Symbol
  pub rx_sym_count : ℕ
  pub waiting : Bool
  pub search_rom : List ℕ
  pub search_last_discrepancy : ℕ
  pub search_last_device_flag : Bool

pub data Call : Type 0 where
  lock_take lock_give : BlusysErr → Call
  rmt_receive : ℕ → EspErr → Call
  rmt_transmit : List Symbol → EspErr → Call
  tx_wait_all_done : EspErr → Call
  rx_disable rx_enable : Call
  notify_take : Option (List Symbol) → Call

abbrev pub Trace : Type 0
Trace = List Call

-- `capture` is none if no notification comes in time, else the symbols of the receive event.
pub record Env : Type 0 where
  pub take : Trace → BlusysErr
  pub give : Trace → BlusysErr
  pub receive : Trace → EspErr
  pub transmit : Trace → EspErr
  pub tx_done : Trace → EspErr
  pub capture : Trace → Option (List Symbol)

pub record State : Type 0 where
  pub ow : OneWire
  pub trace : Trace

abbrev pub M : Type 0 → Type 0
M A = State → Returned A × State

infixl 5 ◌>>=◌ ◌>>◌
abbrev pub ◌>>=◌ : {A B : Type 0} → M A → (A → M B) → M B
◌>>=◌ m f s = let (r, s') = m s in elim r [ done a ↦ f a s' | fail e ↦ (fail e, s') ]

abbrev pub ◌>>◌ : {A B : Type 0} → M A → M B → M B
m >> k = m >>= λ _. k

abbrev pub return : {A : Type 0} → A → M A
return a s = (done a, s)

abbrev pub log_call : Call → State → State
log_call c s = record s { trace = c ∷ s.trace }

abbrev pub set_waiting : Bool → State → State
set_waiting b s = record s { ow = record (s.ow) { waiting = b } }

-- `blusys_one_wire_rom_t`: eight bytes.
abbrev pub no_rom : List ℕ
no_rom = replicate 8 0
