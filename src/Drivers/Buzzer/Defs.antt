-- ===== src/Drivers/Buzzer/Defs.antt =====
-- The playing buzzer of components/blusys/src/drivers/buzzer.c: the callback of its timer, and the
-- operations of a client.
use blusys.Base.{
  ℕ, ◌+◌, ◌-◌, ◌*◌, ◌%◌, ◌^◌, Bool, true, false, Option, none, some, List, [], ◌∷◌, ◌++◌, ◌==◌, ltb,
  if◌then◌else◌, get_or,
}
use blusys.Hal.Error.{BlusysErr, ok, err_invalid_arg, err_invalid_state}
use blusys.Hal.Result.{Returned, done, fail}

-- `blusys_buzzer_note_t`
pub record Note : Type 0 where
  pub freq_hz : ℕ
  pub duration_ms : ℕ

-- What stands for a note that is read out of range.
abbrev pub no_note : Note
no_note = record { freq_hz = 0; duration_ms = 0 }

-- `struct blusys_buzzer` less the pin, the duty, the PWM handle and the lock. A callback with its
-- context is a number. `timer_armed` says whether the SDK will run the timer.
pub record Buzzer : Type 0 where
  pub callback : Option ℕ
  pub callback_active : ℕ
  pub playing : Bool
  pub closing : Bool
  pub seq_notes : Option (List Note)
  pub seq_count : ℕ
  pub seq_index : ℕ
  pub timer_armed : Bool

-- The calls of the PWM module and of the timer, whose results the source does not read, and the
-- client's callback, which is told that playing is done.
pub data Call : Type 0 where
  pwm_set_frequency : ℕ → Call
  pwm_start pwm_stop : Call
  timer_start_once : ℕ → Call
  timer_stop : Call
  event_done : ℕ → Call

-- `invoke_callback`
unfoldable pub invoke_callback : Buzzer → Buzzer × List Call
invoke_callback bz = elim (bz.callback) as (λ x. Buzzer × List Call) [
  | none ↦ (bz, [])
  | some cb ↦
      let active = (bz.callback_active + 1) % 2 ^ 32 in
      (record bz { callback_active = (active + 2 ^ 32 - 1) % 2 ^ 32 }, event_done cb ∷ [])
]

-- The calls of `start_note`.
unfoldable pub note_calls : Note → List Call
note_calls note =
    (if ltb 0 note.freq_hz then pwm_set_frequency note.freq_hz ∷ pwm_start ∷ [] else pwm_stop ∷ [])
    ++ timer_start_once (note.duration_ms * 1000 % 2 ^ 64) ∷ []

-- `start_note`. A timer that is armed already stays armed.
unfoldable pub start_note : Note → Buzzer → Buzzer × List Call
start_note note bz = (record bz { timer_armed = true }, note_calls note)

-- The locals of `buzzer_timer_cb`, which its second critical section reads.
pub record Position : Type 0 where
  pub notes : Option (List Note)
  pub idx : ℕ
  pub count : ℕ

unfoldable pub read_position : Buzzer → Position
read_position bz = record { notes = bz.seq_notes; idx = bz.seq_index; count = bz.seq_count }

-- Nothing is left to play.
unfoldable pub set_idle : Buzzer → Buzzer
set_idle bz = record bz { playing = false; seq_notes = none; seq_count = 0; seq_index = 0 }

-- From the test of `idx < count` on.
unfoldable pub play_next : Position → Buzzer → Buzzer × List Call
play_next p bz = elim (p.notes) as (λ x. Buzzer × List Call) [
  | none ↦ invoke_callback (set_idle bz)
  | some notes ↦
      if ltb p.idx p.count
      then start_note (get_or notes p.idx no_note) (record bz { seq_index = p.idx + 1 })
      else invoke_callback (set_idle bz)
]

-- `buzzer_timer_cb`, when nothing runs between its critical sections.
unfoldable pub buzzer_timer_cb : Buzzer → Buzzer × List Call
buzzer_timer_cb bz =
    let (bz', calls) = play_next (read_position bz) bz in
    if bz.closing then (bz, []) else (bz', pwm_stop ∷ calls)

-- An operation that takes the lock, is refused on a handle that is closing, and gives the lock.
unfoldable pub if_open :
    BlusysErr → (Buzzer → Buzzer × List Call) → Buzzer → BlusysErr × Buzzer × List Call
if_open lock_err op bz =
    let (bz', calls) = op bz in
    if lock_err == ok
    then (if bz.closing then (err_invalid_state, bz, []) else (ok, bz', calls))
    else (lock_err, bz, [])

-- Cancelling what plays, and starting a note.
unfoldable pub restart : Note → Buzzer → Buzzer × List Call
restart note bz =
    let (bz', calls) = start_note note (record bz { timer_armed = false }) in
    (bz', timer_stop ∷ calls)

-- The body of `blusys_buzzer_play`.
unfoldable pub play_tone : ℕ → ℕ → Buzzer → Buzzer × List Call
play_tone freq_hz duration_ms bz =
    restart (record { freq_hz = freq_hz; duration_ms = duration_ms })
      (record bz { playing = true; seq_notes = none; seq_count = 0; seq_index = 0 })

-- The body of `blusys_buzzer_play_sequence`.
unfoldable pub play_notes : List Note → ℕ → Buzzer → Buzzer × List Call
play_notes notes count bz =
    restart (get_or notes 0 no_note)
      (record bz { playing = true; seq_notes = some notes; seq_count = count; seq_index = 1 })

-- The body of `blusys_buzzer_stop`.
unfoldable pub silence : Buzzer → Buzzer × List Call
silence bz = (record (set_idle bz) { timer_armed = false }, timer_stop ∷ pwm_stop ∷ [])

-- The operations, given the result of taking the lock. A handle that is NULL is none; so are notes.
module _ (lock_err : BlusysErr) where
  unfoldable pub buzzer_play : Option Buzzer → ℕ → ℕ → BlusysErr × Option Buzzer × List Call
  buzzer_play none freq_hz duration_ms = (err_invalid_arg, none, [])
  buzzer_play (some bz) freq_hz duration_ms =
      let (err, bz', calls) = if_open lock_err (play_tone freq_hz duration_ms) bz in
      if freq_hz == 0
      then (err_invalid_arg, some bz, [])
      else if duration_ms == 0
      then (err_invalid_arg, some bz, [])
      else (err, some bz', calls)

  unfoldable pub buzzer_play_sequence :
      Option Buzzer → Option (List Note) → ℕ → BlusysErr × Option Buzzer × List Call
  buzzer_play_sequence none notes count = (err_invalid_arg, none, [])
  buzzer_play_sequence (some bz) none count = (err_invalid_arg, some bz, [])
  buzzer_play_sequence (some bz) (some notes) count =
      let (err, bz', calls) = if_open lock_err (play_notes notes count) bz in
      if count == 0 then (err_invalid_arg, some bz, []) else (err, some bz', calls)

  unfoldable pub buzzer_stop : Option Buzzer → BlusysErr × Option Buzzer × List Call
  buzzer_stop none = (err_invalid_arg, none, [])
  buzzer_stop (some bz) =
      let (err, bz', calls) = if_open lock_err silence bz in (err, some bz', calls)

  -- It returns once no callback runs.
  unfoldable pub buzzer_set_callback :
      Option ℕ → Option Buzzer → BlusysErr × Option Buzzer × List Call
  buzzer_set_callback callback none = (err_invalid_arg, none, [])
  buzzer_set_callback callback (some bz) =
      let (err, bz', calls) = if_open lock_err (λ b. (record b { callback = callback }, [])) bz in
      (err, some bz', calls)

-- `blusys_buzzer_is_playing`
unfoldable pub buzzer_is_playing : Option Buzzer → Bool → Returned Bool
buzzer_is_playing none has_out = fail err_invalid_arg
buzzer_is_playing (some bz) has_out = if has_out then done bz.playing else fail err_invalid_arg
