-- ===== src/Observe/Snapshot/RoundTrip.antt =====
-- Taking, restoring and taking a snapshot again.
use blusys.Base.{◌≡◌, ◌∙◌, sym, ap, length, List}
use blusys.Observe.Snapshot.{LogEntry, Observe, observe_snapshot, observe_restore}
use blusys.Observe.Snapshot.Ring.{Holds, observe_snapshot-window}
use blusys.Observe.Snapshot.Restore.{
  IsSized, observe_restore-Holds, snapshot_logs_ext, restored_counters, restored_last_errors,
  snapshot_counters, snapshot_last_errors,
}

-- A restored state is sized again.
restored-IsSized :
    (g g' : Observe) → IsSized g → IsSized g' → IsSized (observe_restore (observe_snapshot g) g')
restored-IsSized g g' v v' = record {
  errors_size = ap length (restored_last_errors g g' v v') ∙ v.errors_size;
  counters_size = ap length (restored_counters g g' v v') ∙ v.counters_size;
}

-- A snapshot of a state that holds a history of fewer than 2 ^ 32 lines, restored over any other state, both with a slot for each error domain, is taken again unchanged: lines, number of lines, counters and last errors.
pub observe_snapshot-observe_restore :
    (hist : List LogEntry) (g g' : Observe)
    → Holds hist g
    → IsSized g
    → IsSized g'
    → observe_snapshot (observe_restore (observe_snapshot g) g') ≡ observe_snapshot g
observe_snapshot-observe_restore hist g g' h v v' =
    let r = observe_restore (observe_snapshot g) g' in
    let hr = observe_restore-Holds hist g g' h in
    let vr = restored-IsSized g g' v v' in
    let n = (observe_snapshot-window hist r hr).0 ∙ sym (observe_snapshot-window hist g h).0 in
    let l = snapshot_logs_ext hist r g hr h in
    let c = snapshot_counters r vr ∙ restored_counters g g' v v' ∙ sym (snapshot_counters g v) in
    let e =
      snapshot_last_errors r vr ∙ restored_last_errors g g' v v' ∙ sym (snapshot_last_errors g v) in
    λ i. record { log_count = n i; logs = l i; counters = c i; last_errors = e i }
