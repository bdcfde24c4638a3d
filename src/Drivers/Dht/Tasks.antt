-- ===== src/Drivers/Dht/Tasks.antt =====
-- The tasks that read a sensor of components/blusys/src/drivers/dht.c, the interrupt, and a task
-- that closes the handle, as a sequence of what happens. No task calls the functions with a handle
-- that has been freed; a task that has called `blusys_dht_read` before and still waits for the lock
-- then does not get it, and what the code does with it from there is not modelled.
use blusys.Base.{ℕ, Bool, true, false, none, some, List, [], ◌∷◌, ◌==◌, if◌then◌else◌}
use blusys.Hal.Error.{BlusysErr}
use blusys.Drivers.Dht.Defs.{Symbol}
use blusys.Drivers.Dht.Read.{
  Dht, Env, Begun, returned, waits, read_begin, dht_rx_done_cb, read_timeout, read_end, close_begin,
  close_end,
}

-- Where a task is: in no read, in `blusys_lock_take` of one, in the wait, or behind it with or without a
-- notification.
pub data ReadPhase : Type 0 where
  outside : ReadPhase
  taking : ReadPhase
  awaiting : ReadPhase
  timed_out : ReadPhase
  woken : ReadPhase

pub record World : Type 0 where
  pub dht : Dht
  pub freed : Bool
  pub phase : ℕ → ReadPhase
  pub notified : ℕ → Bool

pub data DhtEvent : Type 0 where
  arrives : ℕ → DhtEvent
  begins : ℕ → Env → ℕ → DhtEvent
  receives : List Symbol → ℕ → DhtEvent
  expires : ℕ → DhtEvent
  wakes : ℕ → DhtEvent
  gives_up : ℕ → DhtEvent
  ends : ℕ → ℕ → DhtEvent
  closes : BlusysErr → DhtEvent
  frees : DhtEvent

abbrev pub put {ℓ} : {A : Type ℓ} → ℕ → A → (ℕ → A) → ℕ → A
put task a f other = if other == task then a else f other

abbrev pub phase_of : Begun → ReadPhase
phase_of (returned err reading) = outside
phase_of waits = awaiting

-- Whether a task in a read has got the lock.
unfoldable pub is_past_lock : ReadPhase → Bool
is_past_lock outside = false
is_past_lock taking = false
is_past_lock awaiting = true
is_past_lock timed_out = true
is_past_lock woken = true

-- A read is called.
unfoldable pub arrive : ℕ → World → World
arrive task w = record w { phase = put task taking w.phase }

-- The lock is got, and what stands under it is run.
unfoldable pub begin : ℕ → Env → ℕ → World → World
begin task env now_us w =
    let (begun, d) = read_begin env task now_us w.dht in
    record w { dht = d; phase = put task (phase_of begun) w.phase }

unfoldable pub receive_frame : List Symbol → ℕ → World → World
receive_frame symbols num_symbols w =
    let (notified_task, d) = dht_rx_done_cb symbols num_symbols w.dht in
    elim notified_task [
      | none ↦ record w { dht = d }
      | some task ↦ record w { dht = d; notified = put task true w.notified }
    ]

-- What the task does at a place, if it stands there.
unfoldable pub from_phase :
    ReadPhase → (World → World) → (World → World) → (World → World) → World → World
from_phase outside in_wait after_timeout after_wake w = w
from_phase taking in_wait after_timeout after_wake w = w
from_phase awaiting in_wait after_timeout after_wake w = in_wait w
from_phase timed_out in_wait after_timeout after_wake w = after_timeout w
from_phase woken in_wait after_timeout after_wake w = after_wake w

abbrev stay : World → World
stay w = w

-- An event that cannot happen changes nothing.
unfoldable pub happen : DhtEvent → World → World
happen (arrives task) w = if w.freed then w else elim (w.phase task) [
  | outside ↦ arrive task w
  | taking ↦ w
  | awaiting ↦ w
  | timed_out ↦ w
  | woken ↦ w
]
happen (begins task env now_us) w = if w.freed then w else elim (w.phase task) [
  | outside ↦ w
  | taking ↦ begin task env now_us w
  | awaiting ↦ w
  | timed_out ↦ w
  | woken ↦ w
]
happen (receives symbols num_symbols) w = if w.freed then w else receive_frame symbols num_symbols w
happen (expires task) w =
    from_phase (w.phase task)
      (λ v. if v.notified task then v else record v { phase = put task timed_out v.phase }) stay
      stay w
happen (wakes task) w =
    from_phase (w.phase task)
      (λ v.
        if v.notified task
        then record v { phase = put task woken v.phase; notified = put task false v.notified }
        else v)
      stay stay w
happen (gives_up task) w =
    from_phase (w.phase task) stay
      (λ v. record v { dht = (read_timeout v.dht).1; phase = put task outside v.phase }) stay w
happen (ends task now_us) w =
    from_phase (w.phase task) stay stay
      (λ v. record v { dht = (read_end now_us v.dht).1; phase = put task outside v.phase }) w
happen (closes lock_err) w =
    if w.freed then w else record w { dht = (close_begin lock_err w.dht).1 }
happen frees w =
    if w.freed
    then w
    else if w.dht.closing
    then elim (close_end w.dht) [ none ↦ w | some d ↦ record w { dht = d; freed = true } ]
    else w

unfoldable pub happens : List DhtEvent → World → World
happens [] w = w
happens (e ∷ es) w = happens es (happen e w)
