-- ===== src/Drivers/LedStrip/Opened.antt =====
-- What opening a strip of components/blusys/src/drivers/led_strip.c takes, and failing or closing
-- gives back.
use blusys.Base.{
  ℕ, zero, suc, ◌≡◌, refl, Bool, not, Option, none, some, [], ◌∷◌, ◌==◌, if◌then◌else◌, inl, inr,
  Bool-cases, if_both,
}
use blusys.Hal.Error.{ok, err_invalid_arg}
use blusys.Hal.Result.{Returned, done, fail}
use blusys.Drivers.LedStrip.Defs.{LedStripType, params_of, LedStrip}
use blusys.Drivers.LedStrip.Open.{
  Trace, Env, Config, allocated, freed, buf_allocated, buf_freed, lock_init, lock_deinit,
  new_tx_channel, new_bytes_encoder, new_copy_encoder, enable, disable, del_copy_encoder,
  del_bytes_encoder, del_channel, is_made, pixel_buf_size, type_of_number, fail_buf, fail_lock,
  fail_channel, fail_bytes_enc, fail_copy_enc, open_channel, open_type, open_strip, led_strip_open,
  led_strip_close,
}

-- Blocks of the heap, mutexes, channels, the two kinds of encoders, and enabled channels.
pub record Resources : Type 0 where
  pub blocks : ℕ
  pub mutexes : ℕ
  pub channels : ℕ
  pub bytes_encoders : ℕ
  pub copy_encoders : ℕ
  pub running : ℕ

abbrev taken : Bool → ℕ → ℕ
taken b n = if b then suc n else n

abbrev less : ℕ → ℕ
less zero = zero
less (suc n) = n

-- What the calls of a trace have taken and not given back.
unfoldable pub owned : Trace → Resources
owned [] = record {
  blocks = 0;
  mutexes = 0;
  channels = 0;
  bytes_encoders = 0;
  copy_encoders = 0;
  running = 0;
}
owned (allocated ∷ t) = record (owned t) { blocks = suc (owned t).blocks }
owned (freed ∷ t) = record (owned t) { blocks = less (owned t).blocks }
owned (buf_allocated size ∷ t) = record (owned t) { blocks = suc (owned t).blocks }
owned (buf_freed ∷ t) = record (owned t) { blocks = less (owned t).blocks }
owned (lock_init err ∷ t) = record (owned t) { mutexes = taken (err == ok) (owned t).mutexes }
owned (lock_deinit ∷ t) = record (owned t) { mutexes = less (owned t).mutexes }
owned (new_tx_channel e ∷ t) = record (owned t) { channels = taken (is_made e) (owned t).channels }
owned (new_bytes_encoder p e ∷ t) = record (owned t) {
  bytes_encoders = taken (is_made e) (owned t).bytes_encoders;
}
owned (new_copy_encoder e ∷ t) = record (owned t) {
  copy_encoders = taken (is_made e) (owned t).copy_encoders;
}
owned (enable e ∷ t) = record (owned t) { running = taken (is_made e) (owned t).running }
owned (disable ∷ t) = record (owned t) { running = less (owned t).running }
owned (del_copy_encoder ∷ t) = record (owned t) { copy_encoders = less (owned t).copy_encoders }
owned (del_bytes_encoder ∷ t) = record (owned t) { bytes_encoders = less (owned t).bytes_encoders }
owned (del_channel ∷ t) = record (owned t) { channels = less (owned t).channels }
owned (c ∷ t) = owned t

-- Failing gives everything back, and so does closing what opening has given.
abbrev pub GivesBack : Trace → Returned LedStrip × Trace → Type 0
GivesBack t (done strip, t') = owned (led_strip_close ok (some strip) t').1 ≡ owned t
GivesBack t (fail err, t') = owned t' ≡ owned t

open_channel-GivesBack :
    (env : Env) (type : LedStripType) (n size : ℕ) (t : Trace)
    → GivesBack t (open_channel env type n (buf_allocated size ∷ allocated ∷ t))
unfolding open_channel owned led_strip_close fail_buf fail_lock fail_channel fail_bytes_enc
    fail_copy_enc
open_channel-GivesBack env type n size t = elim (Bool-cases (env.init == ok)) [
  | inr e1 ↦ rw e1 (rw e1 refl)
  | inl e1 ↦ rw e1 (elim (Bool-cases (is_made env.channel)) [
    | inr e2 ↦ rw e2 (rw (e1, e2) refl)
    | inl e2 ↦ rw e2 (elim (Bool-cases (is_made env.bytes_encoder)) [
      | inr e3 ↦ rw e3 (rw (e1, e2, e3) refl)
      | inl e3 ↦ rw e3 (elim (Bool-cases (is_made env.copy_encoder)) [
        | inr e4 ↦ rw e4 (rw (e1, e2, e3, e4) refl)
        | inl e4 ↦ rw e4 (elim (Bool-cases (is_made env.enabled)) [
          | inr e5 ↦ rw e5 (rw (e1, e2, e3, e4, e5) refl)
          | inl e5 ↦ rw e5 (rw (e1, e2, e3, e4, e5) refl)
        ])
      ])
    ])
  ])
]

open_type-GivesBack :
    (env : Env) (type : LedStripType) (n : ℕ) (t : Trace) → GivesBack t (open_type env type n t)
unfolding open_type owned led_strip_close
open_type-GivesBack env type n t = if_both (GivesBack t) (not env.alloc) refl (
    if_both (GivesBack t) (not env.alloc_buf) refl
      (open_channel-GivesBack env type n (pixel_buf_size (params_of type) n) t))

chosen-GivesBack :
    (env : Env) (type : Option LedStripType) (n : ℕ) (t : Trace)
    → GivesBack t
        (elim type [ none ↦ (fail err_invalid_arg, t) | some type ↦ open_type env type n t ])
chosen-GivesBack env none n t = refl
chosen-GivesBack env (some type) n t = open_type-GivesBack env type n t

-- A strip that cannot be opened has given back all that opening took; one that was opened gives it back
-- when it is closed.
pub led_strip_open-GivesBack :
    (env : Env) (config : Option Config) (has_out : Bool) (t : Trace)
    → GivesBack t (led_strip_open env config has_out t)
unfolding led_strip_open open_strip
led_strip_open-GivesBack env none has_out t = refl
led_strip_open-GivesBack env (some config) has_out t =
    if_both (GivesBack t) has_out
      (if_both (GivesBack t) (config.led_count == 0) refl (
        if_both (GivesBack t) (not config.output_pin) refl
          (chosen-GivesBack env (type_of_number config.chip) config.led_count t)))
      refl
