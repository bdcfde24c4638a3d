-- ===== src/Drivers/Buzzer/Session.antt =====
-- Any calls on the buzzer of components/blusys/src/drivers/buzzer.c, one after the other, and what
-- a stop does that falls into the callback of the timer.
use blusys.Base.{
  ℕ, ◌<◌, ◌≡◌, refl, true, false, Option, none, some, List, [], ◌∷◌, arith, ltb, ◌==◌,
  if◌then◌else◌, get_or, Bool-cases, inl, inr, if_both, if_true, if_false, ◌∙◌,
}
use blusys.Hal.Error.{BlusysErr, ok}
use blusys.Drivers.Buzzer.Defs.{
  Note, no_note, Buzzer, Call, invoke_callback, note_calls, start_note, read_position, set_idle,
  play_next, buzzer_timer_cb, if_open, restart, play_tone, play_notes, silence, buzzer_play,
  buzzer_play_sequence, buzzer_stop, buzzer_set_callback,
}

-- A call of a client, with the result of taking the lock, or a run of the timer.
pub data Operation : Type 0 where
  play : BlusysErr → ℕ → ℕ → Operation
  play_sequence : BlusysErr → Option (List Note) → ℕ → Operation
  stop : BlusysErr → Operation
  set_callback : BlusysErr → Option ℕ → Operation
  timer : Operation

-- The handle after an operation on an open handle.
unfoldable pub operate : Operation → Buzzer → Option Buzzer
operate (play lock_err freq_hz duration_ms) bz =
    (buzzer_play lock_err (some bz) freq_hz duration_ms).1
operate (play_sequence lock_err notes count) bz =
    (buzzer_play_sequence lock_err (some bz) notes count).1
operate (stop lock_err) bz = (buzzer_stop lock_err (some bz)).1
operate (set_callback lock_err callback) bz = (buzzer_set_callback lock_err callback (some bz)).1
operate timer bz =
    some (if bz.timer_armed then (buzzer_timer_cb (record bz { timer_armed = false })).0 else bz)

unfoldable pub operates : List Operation → Option Buzzer → Option Buzzer
operates [] bz = bz
operates (op ∷ ops) none = none
operates (op ∷ ops) (some bz) = operates ops (operate op bz)

-- An open buzzer plays exactly while its timer is armed.
pub record InStep (bz : Buzzer) : Type 0 where
  pub is_open : bz.closing ≡ false
  pub playing_armed : bz.playing ≡ bz.timer_armed

unfoldable pub IsInStep : Option Buzzer → Type 0
IsInStep none = Unit {0}
IsInStep (some bz) = InStep bz

if_open-InStep :
    (lock_err : BlusysErr) (op : Buzzer → Buzzer × List Call) (bz : Buzzer)
    → InStep bz
    → InStep (op bz).0
    → InStep (if_open lock_err op bz).1
unfolding if_open
if_open-InStep lock_err op bz s t =
    if_both (λ (r : BlusysErr × Buzzer × List Call). InStep r.1) (lock_err == ok)
      (if_both (λ (r : BlusysErr × Buzzer × List Call). InStep r.1) (bz.closing) s t) s

restart-InStep :
    (note : Note) (bz : Buzzer)
    → bz.closing ≡ false
    → bz.playing ≡ true
    → InStep (restart note bz).0
unfolding restart start_note
restart-InStep note bz h p = record { is_open = h; playing_armed = p }

invoke_callback-InStep : (bz : Buzzer) → InStep bz → InStep (invoke_callback bz).0
unfolding invoke_callback
invoke_callback-InStep bz s = ground (arith, s)

play_next-InStep :
    (notes : Option (List Note)) (idx count : ℕ) (bz : Buzzer)
    → bz.closing ≡ false
    → bz.playing ≡ true
    → InStep
        (play_next
          (record { notes = notes; idx = idx; count = count })
          (record bz { timer_armed = false })).0
unfolding play_next set_idle start_note
play_next-InStep none idx count bz h p =
    invoke_callback-InStep _ (record { is_open = h; playing_armed = refl })
play_next-InStep (some notes) idx count bz h p =
    if_both (λ (r : Buzzer × List Call). InStep r.0) (ltb idx count)
      (record { is_open = h; playing_armed = p })
      (invoke_callback-InStep _ (record { is_open = h; playing_armed = refl }))

buzzer_timer_cb-InStep :
    (bz : Buzzer)
    → bz.closing ≡ false
    → bz.playing ≡ true
    → InStep (buzzer_timer_cb (record bz { timer_armed = false })).0
unfolding buzzer_timer_cb read_position
buzzer_timer_cb-InStep bz h p =
    if_false (λ (r : Buzzer × List Call). InStep r.0) (bz.closing) _ _ h
      (play_next-InStep (bz.seq_notes) (bz.seq_index) (bz.seq_count) bz h p)

operate-IsInStep : (op : Operation) (bz : Buzzer) → InStep bz → IsInStep (operate op bz)
unfolding operate IsInStep buzzer_play buzzer_play_sequence buzzer_stop buzzer_set_callback
    play_tone play_notes silence set_idle
operate-IsInStep (play lock_err freq_hz duration_ms) bz s =
    let played =
      if_open-InStep lock_err (play_tone freq_hz duration_ms) bz s
        (restart-InStep _ _ s.is_open refl) in
    if_both (λ (r : BlusysErr × Option Buzzer × List Call). IsInStep r.1) (freq_hz == 0) s
      (if_both (λ (r : BlusysErr × Option Buzzer × List Call). IsInStep r.1) (duration_ms == 0) s
        played)
operate-IsInStep (play_sequence lock_err none count) bz s = s
operate-IsInStep (play_sequence lock_err (some notes) count) bz s =
    let played =
      if_open-InStep lock_err (play_notes notes count) bz s (restart-InStep _ _ s.is_open refl) in
    if_both (λ (r : BlusysErr × Option Buzzer × List Call). IsInStep r.1) (count == 0) s played
operate-IsInStep (stop lock_err) bz s =
    if_open-InStep lock_err silence bz s (record { is_open = s.is_open; playing_armed = refl })
operate-IsInStep (set_callback lock_err callback) bz s =
    if_open-InStep lock_err (λ b. (record b { callback = callback }, [])) bz s
      (record { is_open = s.is_open; playing_armed = s.playing_armed })
operate-IsInStep timer bz s = elim (Bool-cases (bz.timer_armed)) [
  | inl e ↦
      if_true InStep (bz.timer_armed) _ _ e
        (buzzer_timer_cb-InStep bz s.is_open (s.playing_armed ∙ e))
  | inr e ↦ if_false InStep (bz.timer_armed) _ _ e s
]

-- After any calls on an open buzzer and any runs of its timer, one after the other, it is open and plays
-- exactly while its timer is armed, if that was so before.
pub operates-IsInStep :
    (ops : List Operation) (bz : Option Buzzer) → IsInStep bz → IsInStep (operates ops bz)
unfolding operates IsInStep
operates-IsInStep [] bz s = s
operates-IsInStep (op ∷ ops) none s = s
operates-IsInStep (op ∷ ops) (some bz) s =
    operates-IsInStep ops (operate op bz) (operate-IsInStep op bz s)

-- A stop that falls between the two critical sections of the timer's callback, while notes are left, is
-- undone: the callback starts the next note and arms the timer, and the buzzer says that it does not
-- play.
pub silence-play_next :
    (notes : List Note) (bz : Buzzer)
    → bz.seq_notes ≡ some notes
    → bz.seq_index < bz.seq_count
    → ((play_next (read_position bz) (silence bz).0).1
        ≡ note_calls (get_or notes bz.seq_index no_note))
      × ((play_next (read_position bz) (silence bz).0).0.playing ≡ false)
      × ((play_next (read_position bz) (silence bz).0).0.timer_armed ≡ true)
unfolding play_next read_position silence set_idle start_note
silence-play_next notes bz h more =
    let test : ltb bz.seq_index bz.seq_count ≡ true = ground (arith, more) in
    (ground (arith, h, test), ground (arith, h, test), ground (arith, h, test))
