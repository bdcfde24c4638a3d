-- ===== src/Drivers/Encoder/Defs.antt =====
-- The decoder of components/blusys/src/drivers/encoder.c on GPIO levels, and the operations on the
-- position.
use blusys.Base.{
  ℕ, zero, suc, ◌+◌, ◌-◌, ◌*◌, Bool, false, Option, none, some, List, [], ◌∷◌, ◌==◌, leb, ltb,
  if◌then◌else◌, get_or,
}
use blusys.Base.Int.{ℤ, pos, negsuc, pos_part, neg_part, ◌+ℤ◌, ◌-ℤ◌}
use blusys.Hal.Error.{BlusysErr, ok, err_invalid_arg, err_invalid_state}
use blusys.Hal.Result.{Returned, done, fail}
use blusys.Drivers.Button.Defs.{ButtonEvent, press, release, long_press, other_event}
use blusys.Hal.Lifecycle.{try_enter, leave}

pub data Event : Type 0 where
  event_cw event_ccw event_press event_release event_long_press : Event

-- `struct blusys_encoder` less the pins, the lock, the button and the timer. A callback with its
-- context is a number; `steps_per_detent` is positive, as `blusys_encoder_open` makes it.
pub record Encoder : Type 0 where
  pub steps_per_detent : ℕ
  pub callback : Option ℕ
  pub callback_active : ℕ
  pub position : ℤ
  pub closing : Bool
  pub last_clk : Bool
  pub last_dt : Bool
  pub gpio_accum : ℤ

-- `config->steps_per_detent`, an int, as the handle keeps it.
unfoldable pub steps_or_default : ℤ → ℕ
steps_or_default (pos zero) = 4
steps_or_default (pos (suc n)) = suc n
steps_or_default (negsuc n) = 4

-- A run of a callback: which, with what event and position.
pub record Invocation : Type 0 where
  pub callback : ℕ
  pub event : Event
  pub position : ℤ

-- What an int of the given half range keeps of a value at most one outside it.
unfoldable pub wrap_int : ℕ → ℤ → ℤ
wrap_int half (pos n) = if ltb n half then pos n else negsuc (half - 1)
wrap_int half (negsuc n) = if ltb n half then negsuc n else pos (half - 1)

abbrev pub to_int8 : ℤ → ℤ
to_int8 = wrap_int 128

abbrev pub to_int32 : ℤ → ℤ
to_int32 = wrap_int 2147483648

-- `s_gray_table`
abbrev pub gray_table : List ℤ
gray_table =
    pos 0
    ∷ pos 1
    ∷ negsuc 0
    ∷ pos 0
    ∷ negsuc 0
    ∷ pos 0
    ∷ pos 0
    ∷ pos 1
    ∷ pos 1
    ∷ pos 0
    ∷ pos 0
    ∷ negsuc 0
    ∷ pos 0
    ∷ negsuc 0
    ∷ pos 1
    ∷ pos 0
    ∷ []

-- `(clk << 1) | dt`
abbrev pub level_state : Bool → Bool → ℕ
level_state clk dt = (if clk then 2 else 0) + (if dt then 1 else 0)

unfoldable pub gray_delta : ℕ → ℕ → ℤ
gray_delta old_state new_state = get_or gray_table (old_state * 4 + new_state) (pos 0)

abbrev pub is_zero : ℤ → Bool
is_zero (pos n) = n == 0
is_zero (negsuc n) = false

-- `invoke_callback`: the callback runs between the two critical sections.
unfoldable pub invoke_callback : Event → Encoder → Encoder × List Invocation
invoke_callback event enc = elim (enc.callback) as (λ x. Encoder × List Invocation) [
  | none ↦ (enc, [])
  | some cb ↦
      elim (try_enter (enc.callback_active) (enc.closing)) as (λ x. Encoder × List Invocation) [
        | none ↦ (enc, [])
        | some active ↦ (
          record enc { callback_active = leave active },
          record { callback = cb; event = event; position = enc.position } ∷ [],
        )
      ]
]

-- The two branches on the accumulated steps.
unfoldable pub count_detent : Encoder → Encoder × List Invocation
count_detent enc =
    let up =
      invoke_callback event_cw
        (record enc { gpio_accum = pos 0; position = to_int32 (enc.position +ℤ pos 1) }) in
    let down =
      invoke_callback event_ccw
        (record enc { gpio_accum = pos 0; position = to_int32 (enc.position -ℤ pos 1) }) in
    if leb enc.steps_per_detent (pos_part enc.gpio_accum)
    then up
    else if leb enc.steps_per_detent (neg_part enc.gpio_accum)
    then down
    else (enc, [])

-- From the assignment of `last_clk` on.
unfoldable pub apply_levels : Bool → Bool → Encoder → Encoder × List Invocation
apply_levels clk dt enc =
    let delta = gray_delta (level_state enc.last_clk enc.last_dt) (level_state clk dt) in
    let seen = record enc { last_clk = clk; last_dt = dt } in
    let counted = count_detent (record seen { gpio_accum = to_int8 (enc.gpio_accum +ℤ delta) }) in
    if is_zero delta then (seen, []) else counted

-- `gpio_debounce_timer_cb`: the levels are none if the read fails.
unfoldable pub gpio_debounce_timer_cb :
    Option Bool → Option Bool → Encoder → Encoder × List Invocation
gpio_debounce_timer_cb none dt enc = (enc, [])
gpio_debounce_timer_cb (some clk) none enc = (enc, [])
gpio_debounce_timer_cb (some clk) (some dt) enc =
    let applied = apply_levels clk dt enc in
    if enc.closing
    then (enc, [])
    else if level_state enc.last_clk enc.last_dt == level_state clk dt
    then (enc, [])
    else applied

-- What the callback of the encoder's button does.
unfoldable pub encoder_button_cb : ButtonEvent → Encoder → Encoder × List Invocation
encoder_button_cb press enc = invoke_callback event_press enc
encoder_button_cb release enc = invoke_callback event_release enc
encoder_button_cb long_press enc = invoke_callback event_long_press enc
encoder_button_cb other_event enc = (enc, [])

-- The handle is none for NULL.
unfoldable pub encoder_get_position : Option Encoder → Bool → Returned ℤ
encoder_get_position none has_out = fail err_invalid_arg
encoder_get_position (some enc) has_out =
    if has_out then done enc.position else fail err_invalid_arg

unfoldable pub encoder_reset_position : Option Encoder → BlusysErr × Option Encoder
encoder_reset_position none = (err_invalid_arg, none)
encoder_reset_position (some enc) = (ok, some (record enc { position = pos 0 }))

-- `blusys_encoder_set_callback`, given the result of taking the lock.
unfoldable pub encoder_set_callback :
    BlusysErr → Option ℕ → Option Encoder → BlusysErr × Option Encoder
encoder_set_callback lock_err callback none = (err_invalid_arg, none)
encoder_set_callback lock_err callback (some enc) =
    if lock_err == ok
    then (if enc.closing
        then (err_invalid_state, some enc)
        else (ok, some (record enc { callback = callback })))
    else (lock_err, some enc)
