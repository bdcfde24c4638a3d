-- ===== src/Drivers/Dht/Opened.antt =====
-- What opening a sensor of components/blusys/src/drivers/dht.c takes, and failing or closing gives
-- back.
use blusys.Base.{ℕ, zero, suc, ◌≡◌, Bool, some, [], ◌∷◌, ◌==◌, if◌then◌else◌}
use blusys.Hal.Error.{ok}
use blusys.Hal.Result.{Returned, done, fail}
use blusys.Drivers.Dht.Read.{Dht}
use blusys.Drivers.Dht.Open.{
  Trace, Env, allocated, freed, buf_allocated, buf_freed, lock_init, lock_deinit, sem_created,
  sem_deleted, sem_given, new_tx_channel, new_copy_encoder, new_rx_channel, del_rx_channel,
  del_encoder, del_tx_channel, is_made, dht_close,
}

-- Blocks of the heap, mutexes, semaphores, the two kinds of channels, and encoders.
pub record Resources : Type 0 where
  pub blocks : ℕ
  pub mutexes : ℕ
  pub semaphores : ℕ
  pub tx_channels : ℕ
  pub encoders : ℕ
  pub rx_channels : ℕ

abbrev taken : Bool → ℕ → ℕ
taken b n = if b then suc n else n

abbrev less : ℕ → ℕ
less zero = zero
less (suc n) = n

-- What the calls of a trace have taken and not given back.
unfoldable pub owned : Trace → Resources
owned [] = record {
  blocks = 0;
  mutexes = 0;
  semaphores = 0;
  tx_channels = 0;
  encoders = 0;
  rx_channels = 0;
}
owned (allocated ∷ t) = record (owned t) { blocks = suc (owned t).blocks }
owned (freed ∷ t) = record (owned t) { blocks = less (owned t).blocks }
owned (buf_allocated ∷ t) = record (owned t) { blocks = suc (owned t).blocks }
owned (buf_freed ∷ t) = record (owned t) { blocks = less (owned t).blocks }
owned (lock_init err ∷ t) = record (owned t) { mutexes = taken (err == ok) (owned t).mutexes }
owned (lock_deinit ∷ t) = record (owned t) { mutexes = less (owned t).mutexes }
owned (sem_created ∷ t) = record (owned t) { semaphores = suc (owned t).semaphores }
owned (sem_deleted ∷ t) = record (owned t) { semaphores = less (owned t).semaphores }
owned (new_tx_channel e ∷ t) = record (owned t) {
  tx_channels = taken (is_made e) (owned t).tx_channels;
}
owned (del_tx_channel ∷ t) = record (owned t) { tx_channels = less (owned t).tx_channels }
owned (new_copy_encoder e ∷ t) = record (owned t) {
  encoders = taken (is_made e) (owned t).encoders;
}
owned (del_encoder ∷ t) = record (owned t) { encoders = less (owned t).encoders }
owned (new_rx_channel e ∷ t) = record (owned t) {
  rx_channels = taken (is_made e) (owned t).rx_channels;
}
owned (del_rx_channel ∷ t) = record (owned t) { rx_channels = less (owned t).rx_channels }
owned (c ∷ t) = owned t

-- Failing gives everything back, and so does closing what opening has given.
abbrev pub GivesBack : Trace → Returned Dht × Trace → Type 0
GivesBack t (done d, t') = owned (dht_close ok (some d) t').1 ≡ owned t
GivesBack t (fail err, t') = owned t' ≡ owned t

-- The calls before the channels.
abbrev prepared : Env → Trace → Trace
prepared env t = sem_given ∷ sem_created ∷ lock_init env.init ∷ buf_allocated ∷ allocated ∷ t
