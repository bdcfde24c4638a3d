-- ===== src/Drivers/Dht/Alone.antt =====
-- One task that reads a sensor with components/blusys/src/drivers/dht.c, and another one that
-- closes it.
use blusys.Base.{◌≢◌, ℕ, ◌≡◌, true, false, List, [], ◌∷◌}
use blusys.Drivers.Dht.Read.{Dht, Begun}
use blusys.Drivers.Dht.Tasks.{outside, is_past_lock, World, DhtEvent, arrives, begins, phase_of}

-- Every read is by one task.
unfoldable pub ByReader : ℕ → DhtEvent → Type 0
ByReader task (arrives other) = other ≡ task
ByReader task (begins other env now_us) = other ≡ task
ByReader task e = Unit {0}

unfoldable pub OnlyReader : ℕ → List DhtEvent → Type 0
OnlyReader task [] = Unit {0}
OnlyReader task (e ∷ es) = ByReader task e × OnlyReader task es

-- The semaphore can be taken only while no read has the lock behind it, and none has once the handle
-- is freed.
pub record Alone (task : ℕ) (w : World) : Type 0 where
  pub others : (other : ℕ) → other ≢ task → w.phase other ≡ outside
  pub done : w.dht.read_done ≡ true → is_past_lock (w.phase task) ≡ false
  pub gone : w.freed ≡ true → is_past_lock (w.phase task) ≡ false

EndsRead : Begun × Dht → Type 0
EndsRead r = r.1.read_done ≡ true → is_past_lock (phase_of r.0) ≡ false
