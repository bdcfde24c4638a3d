-- ===== src/Hal/GpioExpander/Ready.antt =====
-- What holds of an expander's handle and of the heap while the handle is being opened.
use native.Mathlib.Nat.{one-le-pow}
use blusys.Base.{
  ◌∙◌, ℕ, suc, ◌-◌, ◌*◌, ◌%◌, ◌^◌, ◌<◌, ◌≡◌, refl, true, [], ◌∷◌, arith, ◌==◌, if◌then◌else◌,
  if_both,
}
use blusys.Base.Bits.Masks.{bit_or-lt}
use blusys.Hal.Error.{BlusysErr, ok}
use blusys.Hal.Result.{Returned, done, fail}
use blusys.Hal.GpioExpander.Defs.{
  Ic, pcf8574, pcf8574a, mcp23017, mcp23s17, other_ic, Expander, Env, State, Call, Trace, allocated,
  freed, lock_init, lock_deinit, log_call, is_pcf, join_bytes,
}
use blusys.Hal.GpioExpander.Bus.{on_ok}
use blusys.Hal.GpioExpander.Registers.{pins_of, Registers, Holds, HighAtInputs, InputsHigh, keep}
use blusys.Hal.GpioExpander.Open.{Config, transport_fits, new_expander, next, store}

-- The blocks of the heap, and the locks, that are not given back.
unfoldable pub blocks : Trace → ℕ
blocks [] = 0
blocks (allocated ∷ t) = suc (blocks t)
blocks (freed ∷ t) = blocks t - 1
blocks (c ∷ t) = blocks t

unfoldable pub locks : Trace → ℕ
locks [] = 0
locks (lock_init err ∷ t) = if err == ok then suc (locks t) else locks t
locks (lock_deinit ∷ t) = locks t - 1
locks (c ∷ t) = locks t

-- The bus delivers bytes.
pub record DeliversBytes (env : Env) : Type 0 where
  pub write_read_bytes : (t : Trace) → ((env.write_read t).1 < 256) × ((env.write_read t).2 < 256)
  pub transfer_bytes : (t : Trace) → ((env.transfer t).1 < 256) × ((env.transfer t).2 < 256)

-- The result of opening: a handle that holds the invariant and owns a block and a lock, or an error
-- and neither.
unfoldable pub Opened : Config → Trace → Returned Expander × Trace → Type 0
Opened c t (done e, t') = Holds c.ic e × (blocks t' ≡ suc (blocks t)) × (locks t' ≡ suc (locks t))
Opened c t (fail err, t') = (blocks t' ≡ blocks t) × (locks t' ≡ locks t)

pub record Ready (ic : Ic) (t : Trace) (s : State) : Type 0 where
  pub holds : Holds ic s.expander
  pub one_block : blocks s.trace ≡ suc (blocks t)
  pub one_lock : locks s.trace ≡ suc (locks t)

pub next-Ready :
    (ic : Ic) (t : Trace) (r : BlusysErr × State) (k : State → BlusysErr × State)
    → Ready ic t r.1
    → ((s : State) → Ready ic t s → Ready ic t (k s).1)
    → Ready ic t (next r k).1
next-Ready ic t (e, s) k h hk =
    if_both (λ (r : BlusysErr × State). Ready ic t r.1) (e == ok) (hk s h) h

pub wide_fits : (d0 d1 : ℕ) → d0 < 256 → d1 < 256 → join_bytes d0 d1 < 65536
wide_fits d0 d1 h0 h1 = bit_or-lt 16 d0 (d1 * 2 ^ 8 % 2 ^ 16) (omega arith) (omega arith)

-- A register that is read and stored.
pub store-Ready :
    (ic : Ic) (t : Trace) (err : BlusysErr) (v : ℕ) (s : State) (f : ℕ → State → State)
    → Ready ic t s
    → Ready ic t (f v s)
    → Ready ic t (store (on_ok err v, s) f).1
unfolding store
store-Ready ic t err v s f h hv =
    if_both (λ (r : Returned ℕ). Ready ic t (store (r, s) f).1) (err == ok) hv h

-- The same state after a call that neither allocates nor locks.
pub called-Ready :
    (ic : Ic) (t : Trace) (s : State) (c : Call)
    → (blocks (c ∷ s.trace) ≡ blocks s.trace)
    → (locks (c ∷ s.trace) ≡ locks s.trace)
    → Ready ic t s
    → Ready ic t (log_call c s)
called-Ready ic t s c b l h = record {
  holds = h.holds;
  one_block = b ∙ h.one_block;
  one_lock = l ∙ h.one_lock;
}

-- Other cached registers.
pub stored-Ready :
    (ic : Ic) (t : Trace) (s : State) (d l : ℕ)
    → Registers ic d l
    → Ready ic t s
    → Ready ic t (record s { expander = record (s.expander) { dir_mask = d; output_latch = l } })
stored-Ready ic t s d l r h = record {
  holds = keep ic (s.expander) d l h.holds r;
  one_block = h.one_block;
  one_lock = h.one_lock;
}

pub all_inputs : HighAtInputs 0xFF 0xFF
all_inputs i hi t = t

new_pins :
    (ic : Ic) (c : Config) → transport_fits ic c ≡ true → (if is_pcf ic then 8 else 16) ≡ pins_of ic
unfolding is_pcf pins_of transport_fits
new_pins pcf8574 c h = refl
new_pins pcf8574a c h = refl
new_pins mcp23017 c h = refl
new_pins mcp23s17 c h = refl
new_pins other_ic c h = absurd (ground (arith, h))

zero_inputs : (ic : Ic) → InputsHigh ic 0 0
unfolding InputsHigh
zero_inputs pcf8574 = λ i hi t. t
zero_inputs pcf8574a = λ i hi t. t
zero_inputs mcp23017 = tt
zero_inputs mcp23s17 = tt
zero_inputs other_ic = tt

pub new_expander-Holds : (c : Config) → transport_fits c.ic c ≡ true → Holds c.ic (new_expander c)
unfolding new_expander
new_expander-Holds c h = record {
  ic_kept = refl;
  pins = new_pins c.ic c h;
  registers = record {
    latch_fits = omega (arith, one-le-pow (pins_of c.ic) 2 (omega arith));
    dir_fits = omega (arith, one-le-pow (pins_of c.ic) 2 (omega arith));
    inputs_high = zero_inputs c.ic;
  };
}
