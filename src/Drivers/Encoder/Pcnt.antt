-- ===== src/Drivers/Encoder/Pcnt.antt =====
-- The callbacks of components/blusys/src/drivers/encoder.c where the chip has a pulse counter, and
-- the position after any of their runs.
use blusys.Base.{
  ℕ, suc, ◌+◌, ◌<◌, ◌≡◌, refl, ap, sym, ◌∙◌, Bool, true, false, List, [], ◌∷◌, ◌++◌, arith,
  if◌then◌else◌, length, if_false, if_both,
}
use blusys.Base.Int.{ℤ, pos, negsuc, pos_part, neg_part, ltb_ℤ, ◌+ℤ◌, ◌-ℤ◌, int_laws, +ℤ_assoc}
use blusys.Drivers.Encoder.Defs.{
  Event, event_cw, event_ccw, Encoder, Invocation, to_int32, invoke_callback,
}
use blusys.Drivers.Encoder.Count.{invoke_callback-Same, turn_up-fits, turn_down-fits}

-- An encoder on the pulse counter, with its pending event and whether its timer is armed.
pub record PcntEncoder : Type 0 where
  pub enc : Encoder
  pub pending_event : Event
  pub timer_armed : Bool

abbrev pub turned : ℤ → ℤ → ℤ
turned value p = if ltb_ℤ (pos 0) value then to_int32 (p +ℤ pos 1) else to_int32 (p -ℤ pos 1)

-- `encoder_pcnt_on_reach`, with the value of the watch point that the counter has reached.
unfoldable pub encoder_pcnt_on_reach : ℤ → PcntEncoder → PcntEncoder
encoder_pcnt_on_reach value e = if e.enc.closing then e else record {
  enc = record e.enc { position = turned value e.enc.position };
  pending_event = if ltb_ℤ (pos 0) value then event_cw else event_ccw;
  timer_armed = true;
}

-- `event_timer_cb`, when the timer fires.
unfoldable pub event_timer_cb : PcntEncoder → PcntEncoder × List Invocation
event_timer_cb e =
    let (enc, calls) = invoke_callback e.pending_event e.enc in
    let fired = record e { timer_armed = false } in
    if e.enc.closing then (fired, []) else (record fired { enc = enc }, calls)

-- The counter reaches a watch point, or the timer fires if it is armed.
pub data PcntEvent : Type 0 where
  reaches : ℤ → PcntEvent
  fires : PcntEvent

unfoldable pub happen_pcnt : PcntEvent → PcntEncoder → PcntEncoder × List Invocation
happen_pcnt (reaches value) e = (encoder_pcnt_on_reach value e, [])
happen_pcnt fires e = if e.timer_armed then event_timer_cb e else (e, [])

unfoldable pub run_pcnt : List PcntEvent → PcntEncoder → PcntEncoder × List Invocation
run_pcnt [] e = (e, [])
run_pcnt (x ∷ xs) e =
    let (next, calls) = happen_pcnt x e in
    let (last, more) = run_pcnt xs next in (last, calls ++ more)

-- The detents, up less down, without a bound.
unfoldable pub net : List PcntEvent → ℤ
net [] = pos 0
net (reaches value ∷ xs) = (if ltb_ℤ (pos 0) value then pos 1 else negsuc 0) +ℤ net xs
net (fires ∷ xs) = net xs

event_timer_cb-Same :
    (e : PcntEncoder)
    → ((event_timer_cb e).0.enc.closing ≡ e.enc.closing)
      × ((event_timer_cb e).0.enc.position ≡ e.enc.position)
unfolding event_timer_cb
event_timer_cb-Same e =
    let s = invoke_callback-Same e.pending_event e.enc in
    if_both
      (λ (r : PcntEncoder × List Invocation).
        (r.0.enc.closing ≡ e.enc.closing) × (r.0.enc.position ≡ e.enc.position))
      e.enc.closing (refl, refl) (s.same_closing, s.same_position)

add_zero : (z : ℤ) → z +ℤ pos 0 ≡ z
add_zero z = omega int_laws

zero_add : (z : ℤ) → pos 0 +ℤ z ≡ z
zero_add z = omega int_laws

minus_one : (p : ℤ) → p -ℤ pos 1 ≡ p +ℤ negsuc 0
minus_one p = omega int_laws

-- A turn up or down that the position has room for.
turn-fits :
    (b : Bool) (bound : ℕ) (p : ℤ)
    → bound < 2147483648
    → pos_part p + neg_part p < bound
    → let q = if b then to_int32 (p +ℤ pos 1) else to_int32 (p -ℤ pos 1) in
      (q ≡ p +ℤ (if b then pos 1 else negsuc 0)) × (pos_part q + neg_part q < suc bound)
turn-fits true bound p small h =
    let (same, fits) = turn_up-fits bound p small h in (same, rw same fits)
turn-fits false bound p small h =
    let (same, fits) = turn_down-fits bound p small h in (same ∙ minus_one p, rw same fits)

-- An open encoder whose position is below a bound.
record IsOpen (bound : ℕ) (e : PcntEncoder) : Type 0 where
  not_closing : e.enc.closing ≡ false
  position_fits : pos_part e.enc.position + neg_part e.enc.position < bound

happen-IsOpen :
    (bound : ℕ) (x : PcntEvent) (e : PcntEncoder)
    → bound < 2147483648
    → IsOpen bound e
    → IsOpen (suc bound) (happen_pcnt x e).0
      × ((happen_pcnt x e).0.enc.position ≡ e.enc.position +ℤ net (x ∷ []))
unfolding happen_pcnt net encoder_pcnt_on_reach
happen-IsOpen bound (reaches value) e small o =
    let (same, fits) = turn-fits (ltb_ℤ (pos 0) value) bound e.enc.position small o.position_fits in
    if_false
      (λ (d : PcntEncoder).
        IsOpen (suc bound) d
        × (d.enc.position
            ≡ e.enc.position +ℤ ((if ltb_ℤ (pos 0) value then pos 1 else negsuc 0) +ℤ pos 0)))
      e.enc.closing _ _ o.not_closing
      (
        record { not_closing = o.not_closing; position_fits = fits },
        same ∙ ap (λ z. e.enc.position +ℤ z) (sym (add_zero _)),
      )
happen-IsOpen bound fires e small o =
    let (closing_same, position_same) = event_timer_cb-Same e in
    if_both
      (λ (r : PcntEncoder × List Invocation).
        IsOpen (suc bound) r.0 × (r.0.enc.position ≡ e.enc.position +ℤ pos 0))
      e.timer_armed
      (
        record {
          not_closing = closing_same ∙ o.not_closing;
          position_fits = rw position_same (omega (arith, o.position_fits));
        },
        position_same ∙ sym (add_zero e.enc.position),
      )
      (
        record { not_closing = o.not_closing; position_fits = omega (arith, o.position_fits) },
        sym (add_zero e.enc.position),
      )

net_cons : (x : PcntEvent) (xs : List PcntEvent) → net (x ∷ []) +ℤ net xs ≡ net (x ∷ xs)
unfolding net
net_cons (reaches value) xs = ap (λ z. z +ℤ net xs) (add_zero _)
net_cons fires xs = zero_add (net xs)

run_pcnt-IsOpen :
    (xs : List PcntEvent) (bound : ℕ) (e : PcntEncoder)
    → bound + length xs < 2147483648
    → IsOpen bound e
    → (run_pcnt xs e).0.enc.position ≡ e.enc.position +ℤ net xs
unfolding run_pcnt net
run_pcnt-IsOpen [] bound e small o = sym (add_zero e.enc.position)
run_pcnt-IsOpen (x ∷ xs) bound e small o =
    let (opened, moved) = happen-IsOpen bound x e (omega (arith, small)) o in
    run_pcnt-IsOpen xs (suc bound) (happen_pcnt x e).0 (omega (arith, small)) opened
    ∙ ap (λ z. z +ℤ net xs) moved
    ∙ +ℤ_assoc e.enc.position (net (x ∷ [])) (net xs)
    ∙ ap (λ z. e.enc.position +ℤ z) (net_cons x xs)

-- On an open encoder whose position has room for them: after any watch points that the counter reaches
-- and any runs of the timer, the position has moved by the detents up less those down.
pub run_pcnt-position :
    (xs : List PcntEvent) (e : PcntEncoder)
    → e.enc.closing ≡ false
    → pos_part e.enc.position + neg_part e.enc.position + length xs < 2147483647
    → (run_pcnt xs e).0.enc.position ≡ e.enc.position +ℤ net xs
run_pcnt-position xs e o room =
    run_pcnt-IsOpen xs (suc (pos_part e.enc.position + neg_part e.enc.position)) e
      (omega (arith, room)) (record { not_closing = o; position_fits = omega arith })
