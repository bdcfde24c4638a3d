-- ===== src/Drivers/Buzzer/Tests.antt =====
-- The theorems about components/blusys/src/drivers/buzzer.c at concrete inputs.
use blusys.Base.{ℕ, ◌≤◌, ◌≡◌, refl, true, false, none, some, [], ◌∷◌, arith, get_or}
use blusys.Hal.Error.{ok, err_busy, err_invalid_arg, EspErr}
use blusys.Drivers.Buzzer.Defs.{
  Note, no_note, Buzzer, pwm_stop, timer_start_once, timer_stop, note_calls, start_note,
  read_position, play_next, if_open, restart, silence, buzzer_play_sequence, buzzer_play, play_tone,
}
use blusys.Drivers.Buzzer.Open.{Env, new_buzzer}
use blusys.Drivers.Buzzer.Sequence.{timer_runs, melody, IsIdle, buzzer_play_sequence-melody}
use blusys.Drivers.Buzzer.Session.{
  play, play_sequence, stop, set_callback, timer, operates, IsInStep, operates-IsInStep,
  silence-play_next,
}

abbrev quiet : Buzzer
quiet = record new_buzzer { callback = some 7 }

abbrev a4 : Note
a4 = record { freq_hz = 440; duration_ms = 100 }

abbrev rest : Note
rest = record { freq_hz = 0; duration_ms = 50 }

abbrev a5 : Note
a5 = record { freq_hz = 880; duration_ms = 200 }

rest-calls : note_calls rest ≡ pwm_stop ∷ timer_start_once 50000 ∷ []
unfolding note_calls
rest-calls = refl

play_without_frequency : buzzer_play ok (some quiet) 0 100 ≡ (err_invalid_arg, some quiet, [])
unfolding buzzer_play if_open play_tone restart start_note note_calls
play_without_frequency = refl

buzzer_play_sequence-melody_example :
    (bz' : Buzzer) × (buzzer_play_sequence ok (some quiet) (some (a4 ∷ rest ∷ a5 ∷ [])) 3
      ≡ (ok, some bz', timer_stop ∷ note_calls a4))
    × ((n : ℕ) → n ≤ 2 → (timer_runs n bz').0.playing ≡ true)
    × ((timer_runs 3 bz').1 ≡ melody (some 7) (rest ∷ a5 ∷ []))
    × IsIdle (some 7) (timer_runs 3 bz').0
buzzer_play_sequence-melody_example = buzzer_play_sequence-melody a4 (rest ∷ a5 ∷ []) quiet refl

operates-IsInStep_example : IsInStep (
    operates
      (play ok 440 100
        ∷ timer
        ∷ play_sequence ok (some (a4 ∷ a5 ∷ [])) 2
        ∷ timer
        ∷ stop err_busy
        ∷ set_callback ok none
        ∷ stop ok
        ∷ [])
      (some quiet))
unfolding IsInStep
operates-IsInStep_example =
    operates-IsInStep
      (play ok 440 100
        ∷ timer
        ∷ play_sequence ok (some (a4 ∷ a5 ∷ [])) 2
        ∷ timer
        ∷ stop err_busy
        ∷ set_callback ok none
        ∷ stop ok
        ∷ [])
      (some quiet) (record { is_open = refl; playing_armed = refl })

-- The first of two notes has just ended.
abbrev between_notes : Buzzer
between_notes = record quiet {
  playing = true;
  seq_notes = some (a4 ∷ a5 ∷ []);
  seq_count = 2;
  seq_index = 1;
}

silence-play_next_example :
    ((play_next (read_position between_notes) (silence between_notes).0).1
      ≡ note_calls (get_or (a4 ∷ a5 ∷ []) 1 no_note))
    × ((play_next (read_position between_notes) (silence between_notes).0).0.playing ≡ false)
    × ((play_next (read_position between_notes) (silence between_notes).0).0.timer_armed ≡ true)
silence-play_next_example = silence-play_next (a4 ∷ a5 ∷ []) between_notes refl (ground arith)

abbrev no_timer : Env
no_timer = record { alloc = true; init = ok; open_pwm = ok; create = EspErr.no_mem }
