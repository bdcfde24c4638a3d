-- ===== src/Observe/Tests.antt =====
-- The observe theorems at concrete inputs, and runs of the code.
use blusys.Base.{
  ℕ, ◌+◌, ◌<◌, ◌≡◌, refl, ◌&&◌, some, List, [], arith, length, leb, ◌==◌, if◌then◌else◌, get_or,
  replicate, copy_range, min, ◌-◌, ◌%◌, ◌^◌,
}
use blusys.Hal.Error.{err_domain_count}
use blusys.Observe.Counter.{counter_get, counter_reset_all}
use blusys.Observe.Snapshot.{
  Observe, LogEntry, no_entry, no_last_error, log_ring_depth, record_log, observe_snapshot,
  observe_restore, observe_clear, copy_logs, snapshot_count, snapshot_start,
}
use blusys.Observe.Snapshot.Ring.{
  Holds, history_after, record_log-Holds, observe_clear-Holds, observe_snapshot-window,
}
use blusys.Observe.Snapshot.Restore.{IsSized}
use blusys.Observe.Snapshot.RoundTrip.{observe_snapshot-observe_restore}
use blusys.Observe.Snapshot.Errors.{HoldsErrors, record_log-HoldsErrors, observe_clear-HoldsErrors}
use blusys.Observe.Log.{Logger, log_v, codes}
use blusys.Observe.Log.Lines.{log_v-counter_get}

-- The statics before the first call.
abbrev zeroed : Observe
zeroed = record {
  log_ring = replicate log_ring_depth no_entry;
  last_errors = replicate err_domain_count no_last_error;
  log_sequence = 0;
  log_count = 0;
  counters = replicate err_domain_count 0;
}

abbrev fresh : Observe
fresh = observe_clear zeroed

abbrev bus_stuck : List ℕ
bus_stuck = codes "bus stuck"

abbrev one_line : Observe
one_line = record_log 0 10 (some bus_stuck) fresh

abbrev one_entry : List LogEntry
one_entry = history_after [] 0 10 (some bus_stuck)

one_line-Holds : Holds one_entry one_line
one_line-Holds =
    record_log-Holds [] fresh 0 10 (some bus_stuck) (observe_clear-Holds zeroed) (omega arith)

record_log-Holds_example : Holds one_entry one_line
record_log-Holds_example =
    record_log-Holds [] fresh 0 10 (some bus_stuck) (observe_clear-Holds zeroed) (omega arith)

observe_snapshot-window_example :
    ((observe_snapshot one_line).log_count ≡ min log_ring_depth (length one_entry))
    × ((k : ℕ)
        → k < min log_ring_depth (length one_entry)
        → get_or (observe_snapshot one_line).logs k no_entry
          ≡ get_or one_entry
              (length one_entry - min log_ring_depth (length one_entry) + k)
              no_entry)
observe_snapshot-window_example = observe_snapshot-window one_entry one_line one_line-Holds

one_line-IsSized : IsSized one_line
unfolding record_log observe_clear counter_reset_all copy_range
one_line-IsSized = record { errors_size = refl; counters_size = refl }

zeroed-IsSized : IsSized zeroed
zeroed-IsSized = record { errors_size = refl; counters_size = refl }

observe_snapshot-observe_restore_example :
    observe_snapshot (observe_restore (observe_snapshot one_line) zeroed)
    ≡ observe_snapshot one_line
observe_snapshot-observe_restore_example =
    observe_snapshot-observe_restore one_entry one_line zeroed one_line-Holds one_line-IsSized
      zeroed-IsSized

record_log-HoldsErrors_example : HoldsErrors one_entry one_line
record_log-HoldsErrors_example =
    record_log-HoldsErrors [] fresh 0 10 (some bus_stuck) (observe_clear-Holds zeroed) (omega arith)
      (observe_clear-HoldsErrors zeroed)

abbrev logger : Logger
logger = record { min_level = 2; observe = zeroed; stderr_lines = []; stdout_lines = [] }

log_v-counter_get_example : counter_get (log_v 1 10 bus_stuck logger).observe.counters 10 ≡ (
    if leb 1 2 && 10 == 10
    then (counter_get zeroed.counters 10 + 1) % 2 ^ 32
    else counter_get zeroed.counters 10)
log_v-counter_get_example = log_v-counter_get 1 10 bus_stuck logger 10 refl (omega arith)

-- The second of two lines stands second in the snapshot, with sequence number 2.
two_lines :
    get_or (observe_snapshot (record_log 2 11 (some (codes "tick")) one_line)).logs 1 no_entry
    ≡ record { sequence = 2; level = 2; domain = 11; text = codes "tick" }
unfolding observe_snapshot record_log observe_clear copy_logs snapshot_count snapshot_start
two_lines = refl
