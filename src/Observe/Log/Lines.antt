-- ===== src/Observe/Log/Lines.antt =====
-- What a logged line does: the severity filter, the counter of its domain, the stream and the ring.
use blusys.Base.{
  ℕ, ◌+◌, ◌%◌, ◌^◌, ◌<◌, ◌≡◌, ◌&&◌, some, List, arith, leb, ltb, false, ◌==◌, if◌then◌else◌, length,
  get_or, get_or-set,
}
use blusys.Hal.Error.{err_domain_count}
use blusys.Observe.Counter.{counter_inc, counter_get}
use blusys.Observe.Snapshot.{Observe, record_log}
use blusys.Observe.Log.{Logger, log_v, rendered_line}

counters-record_log :
    (level domain : ℕ) (text : List ℕ) (g : Observe)
    → (record_log level domain (some text) g).counters ≡ g.counters
unfolding record_log
counters-record_log level domain text g = ground arith

-- A line at level error passes every threshold.
pub counters-log_v_error :
    (domain : ℕ) (message : List ℕ) (l : Logger)
    → (log_v 0 domain message l).observe.counters ≡ counter_inc l.observe.counters domain 1
unfolding log_v
counters-log_v_error domain message l =
    let passes : ltb l.min_level 0 ≡ false = ground arith in
    rw passes (
      counters-record_log 0 domain (rendered_line 0 domain message)
        (record (l.observe) { counters = counter_inc l.observe.counters domain 1 }))

-- A call counts one (modulo 2 ^ 32) for its own domain if its severity passes the threshold, and
-- leaves every other counter alone.
pub log_v-counter_get :
    (level domain : ℕ) (message : List ℕ) (l : Logger) (d : ℕ)
    → length l.observe.counters ≡ err_domain_count
    → d < err_domain_count
    → counter_get (log_v level domain message l).observe.counters d ≡ (
        if leb level l.min_level && domain == d
        then (counter_get l.observe.counters d + 1) % 2 ^ 32
        else counter_get l.observe.counters d)
unfolding log_v counter_get counter_inc
log_v-counter_get level domain message l d size hd = ground (
  arith,
  counters-record_log level domain (rendered_line level domain message)
      (record (l.observe) { counters = counter_inc l.observe.counters domain 1 }),
  get_or-set l.observe.counters domain d ((get_or l.observe.counters domain 0 + 1) % 2 ^ 32) 0,
)
