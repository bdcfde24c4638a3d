-- ===== src/Drivers/Buzzer/Sequence.antt =====
-- A sequence on the buzzer of components/blusys/src/drivers/buzzer.c, from its start to its end.
use mathlib.Core.List.{append-nil}
use blusys.Base.{
  ℕ, zero, suc, ◌+◌, ◌<◌, ◌≤◌, ◌≡◌, refl, ◌∙◌, sym, ap, true, false, Option, none, some, List, [],
  ◌∷◌, ◌++◌, arith, ltb, if◌then◌else◌, length, get_or,
}
use blusys.Hal.Error.{ok}
use blusys.Drivers.Buzzer.Defs.{
  Note, no_note, Buzzer, Call, pwm_stop, timer_stop, event_done, invoke_callback, note_calls,
  start_note, read_position, set_idle, play_next, buzzer_timer_cb, if_open, restart, play_notes,
  buzzer_play_sequence,
}

-- The SDK runs the timer once each time that it is armed: its n next runs.
unfoldable pub timer_runs : ℕ → Buzzer → Buzzer × List Call
timer_runs zero bz = (bz, [])
timer_runs (suc n) bz =
    let (bz1, now) = buzzer_timer_cb (record bz { timer_armed = false }) in
    let (bz2, later) = timer_runs n bz1 in if bz.timer_armed then (bz2, now ++ later) else (bz, [])

-- The calls that play the notes one after the other, each after a pause, and then report the end.
unfoldable pub melody : Option ℕ → List Note → List Call
melody callback [] = elim callback as (λ x. List Call) [
  | none ↦ pwm_stop ∷ []
  | some cb ↦ pwm_stop ∷ event_done cb ∷ []
]
melody callback (note ∷ notes) = pwm_stop ∷ note_calls note ++ melody callback notes

-- The buzzer is idle, and so is its timer.
pub record IsIdle (callback : Option ℕ) (bz : Buzzer) : Type 0 where
  pub not_playing : bz.playing ≡ false
  pub no_timer : bz.timer_armed ≡ false
  pub no_notes : bz.seq_notes ≡ none
  pub same_callback : bz.callback ≡ callback

-- A sequence plays, and its notes from the index on are these.
pub record Plays (callback : Option ℕ) (rest : List Note) (bz : Buzzer) : Type 0 where
  pub is_playing : bz.playing ≡ true
  pub armed : bz.timer_armed ≡ true
  pub is_open : bz.closing ≡ false
  pub keeps_callback : bz.callback ≡ callback
  pub notes : List Note
  pub has_notes : bz.seq_notes ≡ some notes
  pub left : bz.seq_count ≡ bz.seq_index + length rest
  pub ahead :
      (k : ℕ) → k < length rest → get_or notes (bz.seq_index + k) no_note ≡ get_or rest k no_note

-- The timer ends a note, and starts the next.
abbrev at_next : Buzzer → Buzzer
at_next bz = record bz { timer_armed = true; seq_index = bz.seq_index + 1 }

buzzer_timer_cb-note :
    (callback : Option ℕ) (note : Note) (rest : List Note) (bz : Buzzer)
    → Plays callback (note ∷ rest) bz
    → buzzer_timer_cb (record bz { timer_armed = false }) ≡ (at_next bz, pwm_stop ∷ note_calls note)
unfolding buzzer_timer_cb play_next read_position start_note
buzzer_timer_cb-note callback note rest bz p =
    let more : ltb bz.seq_index bz.seq_count ≡ true = ground (arith, p.left) in
    let at : bz.seq_index + 0 ≡ bz.seq_index = omega arith in
    let this : get_or p.notes bz.seq_index no_note ≡ note = rw at at (p.ahead 0 (omega arith)) in
    ground (arith, p.has_notes, more, this, p.is_open)

at_next-Plays :
    (callback : Option ℕ) (note : Note) (rest : List Note) (bz : Buzzer)
    → Plays callback (note ∷ rest) bz
    → Plays callback rest (at_next bz)
at_next-Plays callback note rest bz p = record {
  is_playing = p.is_playing;
  armed = refl;
  is_open = p.is_open;
  keeps_callback = p.keeps_callback;
  notes = p.notes;
  has_notes = p.has_notes;
  left = omega (arith, p.left);
  ahead = λ k h.
      let e : bz.seq_index + suc k ≡ bz.seq_index + 1 + k = omega arith in
      rw e at (p.ahead (suc k) (omega arith));
}

-- The timer ends the last note.
buzzer_timer_cb-end :
    (callback : Option ℕ) (bz : Buzzer)
    → Plays callback [] bz
    → ((buzzer_timer_cb (record bz { timer_armed = false })).1 ≡ melody callback [])
      × IsIdle callback (buzzer_timer_cb (record bz { timer_armed = false })).0
unfolding buzzer_timer_cb play_next read_position invoke_callback set_idle melody
buzzer_timer_cb-end callback bz p =
    let none_left : ltb bz.seq_index bz.seq_count ≡ false = ground (arith, p.left) in
    (
      ground (arith, p.has_notes, none_left, p.is_open, p.keeps_callback),
      record {
        not_playing = ground (arith, p.has_notes, none_left, p.is_open, p.keeps_callback);
        no_timer = ground (arith, p.has_notes, none_left, p.is_open, p.keeps_callback);
        no_notes = ground (arith, p.has_notes, none_left, p.is_open, p.keeps_callback);
        same_callback = ground (arith, p.has_notes, none_left, p.is_open, p.keeps_callback);
      },
    )

-- What follows one run of the timer.
abbrev prepend : List Call → Buzzer × List Call → Buzzer × List Call
prepend now r = (r.0, now ++ r.1)

timer_runs-suc :
    (n : ℕ) (bz : Buzzer)
    → bz.timer_armed ≡ true
    → timer_runs (suc n) bz
      ≡ prepend
          (buzzer_timer_cb (record bz { timer_armed = false })).1
          (timer_runs n (buzzer_timer_cb (record bz { timer_armed = false })).0)
unfolding timer_runs
timer_runs-suc n bz h = ground (arith, h)

timer_runs-note :
    (callback : Option ℕ) (note : Note) (rest : List Note) (n : ℕ) (bz : Buzzer)
    → Plays callback (note ∷ rest) bz
    → timer_runs (suc n) bz ≡ prepend (pwm_stop ∷ note_calls note) (timer_runs n (at_next bz))
timer_runs-note callback note rest n bz p =
    timer_runs-suc n bz p.armed
    ∙ ap (λ (r : Buzzer × List Call). prepend r.1 (timer_runs n r.0))
        (buzzer_timer_cb-note callback note rest bz p)

timer_runs-one :
    (bz : Buzzer)
    → bz.timer_armed ≡ true
    → timer_runs 1 bz ≡ buzzer_timer_cb (record bz { timer_armed = false })
unfolding timer_runs
timer_runs-one bz h =
    timer_runs-suc 0 bz h
    ∙ ap (λ (calls : List Call). ((buzzer_timer_cb (record bz { timer_armed = false })).0, calls))
        (append-nil (buzzer_timer_cb (record bz { timer_armed = false })).1)

melody-cons :
    (callback : Option ℕ) (note : Note) (rest : List Note)
    → melody callback (note ∷ rest) ≡ pwm_stop ∷ note_calls note ++ melody callback rest
unfolding melody
melody-cons callback note rest = refl

-- As many runs of the timer as notes are left, and one more, play them and report the end.
timer_runs-melody :
    (callback : Option ℕ) (rest : List Note) (bz : Buzzer)
    → Plays callback rest bz
    → ((timer_runs (suc (length rest)) bz).1 ≡ melody callback rest)
      × IsIdle callback (timer_runs (suc (length rest)) bz).0
timer_runs-melody callback [] bz p =
    let (calls, idle) = buzzer_timer_cb-end callback bz p in
    rw (timer_runs-one bz p.armed) (calls, idle)
timer_runs-melody callback (note ∷ rest) bz p =
    let (calls, idle) =
      timer_runs-melody callback rest (at_next bz) (at_next-Plays callback note rest bz p) in
    rw (timer_runs-note callback note rest (suc (length rest)) bz p) (
      ap (λ (later : List Call). pwm_stop ∷ note_calls note ++ later) calls
          ∙ sym (melody-cons callback note rest),
      idle,
    )

timer_runs-playing :
    (callback : Option ℕ) (rest : List Note) (n : ℕ) (bz : Buzzer)
    → n ≤ length rest
    → Plays callback rest bz
    → (timer_runs n bz).0.playing ≡ true
unfolding timer_runs
timer_runs-playing callback rest zero bz h p = p.is_playing
timer_runs-playing callback [] (suc n) bz h p = absurd (omega arith)
timer_runs-playing callback (note ∷ rest) (suc n) bz h p =
    rw (timer_runs-note callback note rest n bz p) (
      timer_runs-playing callback rest n (at_next bz) (omega arith)
        (at_next-Plays callback note rest bz p))

play_notes-Plays :
    (note : Note) (notes : List Note) (bz : Buzzer)
    → bz.closing ≡ false
    → Plays bz.callback notes (play_notes (note ∷ notes) (suc (length notes)) bz).0
unfolding play_notes restart start_note
play_notes-Plays note notes bz h = record {
  is_playing = refl;
  armed = refl;
  is_open = h;
  keeps_callback = refl;
  notes = note ∷ notes;
  has_notes = refl;
  left = omega arith;
  ahead = λ k hk. let e : 1 + k ≡ suc k = omega arith in rw e refl;
}

-- A sequence of notes that is started on an open buzzer, with the lock taken, plays them in order: the first at
-- once, and each other one when the timer has ended the one before; until the last has ended the buzzer
-- is playing, and then it is idle and the client is told once.
pub buzzer_play_sequence-melody :
    (note : Note) (notes : List Note) (bz : Buzzer)
    → bz.closing ≡ false
    → (bz' : Buzzer) × (buzzer_play_sequence ok (some bz) (some (note ∷ notes)) (suc (length notes))
        ≡ (ok, some bz', timer_stop ∷ note_calls note))
      × ((n : ℕ) → n ≤ length notes → (timer_runs n bz').0.playing ≡ true)
      × ((timer_runs (suc (length notes)) bz').1 ≡ melody bz.callback notes)
      × IsIdle bz.callback (timer_runs (suc (length notes)) bz').0
unfolding buzzer_play_sequence if_open play_notes restart start_note
buzzer_play_sequence-melody note notes bz h =
    let p = play_notes-Plays note notes bz h in
    let (calls, idle) = timer_runs-melody bz.callback notes _ p in
    (
      (play_notes (note ∷ notes) (suc (length notes)) bz).0,
      ground (arith, h),
      λ n hn. timer_runs-playing bz.callback notes n _ hn p,
      calls,
      idle,
    )
