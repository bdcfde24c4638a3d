-- ===== src/Observe/Snapshot/Restore.antt =====
-- Restoring a snapshot brings back the state that it was taken of, as far as a snapshot shows it.
use native.Mathlib.Decide.{ℕ_discrete, dec_lt}
use mathlib.Core.Path.{subst}
use blusys.Base.{
  false, ℕ, zero, suc, ◌+◌, ◌-◌, ◌%◌, ◌^◌, ◌≤◌, ◌<◌, min, ◌≡◌, refl, sym, ◌∙◌, ap, ◌≢◌, List, arith,
  ltb, ◌==◌, if◌then◌else◌, length, get_or, length-set, get_or-set_self, get_or-set_ne, get_or_ext,
  replicate, copy_range_all,
}
use blusys.Hal.Error.{err_domain_count}
use blusys.Observe.Counter.{counter_snapshot, counter_restore}
use blusys.Observe.Snapshot.{
  LogEntry, Observe, no_entry, no_last_error, log_ring_depth, snapshot_count, snapshot_start,
  restore_entry, restore_logs, blank, observe_snapshot, observe_restore,
}
use blusys.Observe.Snapshot.Ring.{
  Holds, observe_snapshot-window, snapshot_window, length-copy_logs, copy_logs_after,
}

-- The state of the restoring loop after the entries of `hist` from index `from` up to `at`.
record Restored (hist : List LogEntry) (from at : ℕ) (g : Observe) : Type 0 where
  ring_size : length g.log_ring ≡ log_ring_depth
  sequence : g.log_sequence ≡ (if at == from then 0 else at)
  count : g.log_count ≡ at - from
  recent :
      (j : ℕ) → from ≤ j → j < at → get_or g.log_ring (j % 32) no_entry ≡ get_or hist j no_entry

mod-ne_of_window : (j n : ℕ) → j < n → n < j + 32 → n % 32 ≢ j % 32
mod-ne_of_window j n h k = omega arith

restore_entry-Restored :
    (hist : List LogEntry) (from at : ℕ) (src : LogEntry) (g : Observe)
    → Restored hist from at g
    → src ≡ get_or hist at no_entry
    → src.sequence ≡ at + 1
    → from ≤ at
    → at < from + 32
    → at + 1 < 2 ^ 32
    → Restored hist from (at + 1) (restore_entry src g)
unfolding restore_entry
restore_entry-Restored hist from at src g h e q lo hi room =
    let slot : (src.sequence + 2 ^ 32 - 1) % 2 ^ 32 ≡ at = omega arith in
    let used : (src.sequence == 0) ≡ false = ground arith in
    rw (used, slot)
      (record {
        ring_size = omega (arith, length-set g.log_ring (at % 32) src);
        sequence = ground arith;
        count = ground arith;
        recent = λ j hj hk. elim (ℕ_discrete j at) [
          | yes r ↦ rw r (get_or-set_self g.log_ring (at % 32) src no_entry (omega arith) ∙ e)
          | no ne ↦
              get_or-set_ne g.log_ring src no_entry
                (mod-ne_of_window j at (omega arith) (omega arith))
              ∙ h.recent j hj (omega arith)
        ];
      })

restore_logs-Restored :
    (n i from : ℕ) (hist logs : List LogEntry) (g : Observe)
    → Restored hist from (from + i) g
    → ((k : ℕ) → k < i + n → get_or logs k no_entry ≡ get_or hist (from + k) no_entry)
    → ((j : ℕ) → j < from + i + n → (get_or hist j no_entry).sequence ≡ j + 1)
    → i + n ≤ 32
    → from + i + n < 2 ^ 32
    → Restored hist from (from + i + n) (restore_logs n i logs g)
unfolding restore_logs
restore_logs-Restored zero i from hist logs g h e q room fits =
    let z : from + i + zero ≡ from + i = omega arith in rw z h
restore_logs-Restored (suc n) i from hist logs g h e q room fits =
    let one : from + i + 1 ≡ from + (i + 1) = omega arith in
    let all : from + i + suc n ≡ from + (i + 1) + n = omega arith in
    let here : get_or logs i no_entry ≡ get_or hist (from + i) no_entry = e i (omega arith) in
    let step : Restored hist from (from + i + 1) (restore_entry (get_or logs i no_entry) g) =
      restore_entry-Restored hist from (from + i) (get_or logs i no_entry) g h here
        (ap (λ (x : LogEntry). x.sequence) here ∙ q (from + i) (omega arith)) (omega arith)
        (omega arith) (omega arith) in
    rw all (
      restore_logs-Restored n (i + 1) from hist logs _
        (subst (λ t. Restored hist from t (restore_entry (get_or logs i no_entry) g)) one step)
        (λ k hk. e k (omega arith)) (λ j hj. q j (omega arith)) (omega arith) (omega arith))

blank-Restored : (hist : List LogEntry) (from : ℕ) (g : Observe) → Restored hist from from (blank g)
blank-Restored hist from g = record {
  ring_size = refl;
  sequence = ground arith;
  count = omega arith;
  recent = λ j hj hk. absurd (omega arith);
}

-- Restoring the snapshot of a state gives a state with the same history of lines.
pub observe_restore-Holds :
    (hist : List LogEntry) (g g' : Observe)
    → Holds hist g
    → Holds hist (observe_restore (observe_snapshot g) g')
unfolding observe_restore
observe_restore-Holds hist g g' h =
    let w = observe_snapshot-window hist g h in
    let n = min log_ring_depth (length hist) in
    let from = length hist - n in
    let rounds : (if ltb (observe_snapshot g).log_count log_ring_depth
          then (observe_snapshot g).log_count
          else log_ring_depth)
        ≡ n =
      ground arith in
    let r : Restored hist from (from + 0 + n)
        (restore_logs n 0 (observe_snapshot g).logs (blank g')) =
      restore_logs-Restored n 0 from hist _ _
        (let z : from + 0 ≡ from = omega arith in rw z (blank-Restored hist from g'))
        (λ k hk. w.1 k (omega arith)) (λ j hj. h.numbered j (omega arith)) (omega arith)
        (omega arith) in
    rw rounds (record {
      ring_size = r.ring_size;
      short = h.short;
      sequence = ground arith;
      count = omega arith;
      numbered = h.numbered;
      recent = λ j hj hw. r.recent j (omega arith) (omega arith);
    })

-- The arrays with one slot for each domain have their size.
pub record IsSized (g : Observe) : Type 0 where
  pub errors_size : length g.last_errors ≡ err_domain_count
  pub counters_size : length g.counters ≡ err_domain_count

pub snapshot_counters : (g : Observe) → IsSized g → (observe_snapshot g).counters ≡ g.counters
unfolding observe_snapshot counter_snapshot
snapshot_counters g v =
    copy_range_all 0 err_domain_count g.counters (replicate err_domain_count 0) v.counters_size refl

pub snapshot_last_errors :
    (g : Observe) → IsSized g → (observe_snapshot g).last_errors ≡ g.last_errors
unfolding observe_snapshot
snapshot_last_errors g v =
    copy_range_all no_last_error err_domain_count g.last_errors
      (replicate err_domain_count no_last_error) v.errors_size refl

restore_logs_frame :
    (n i : ℕ) (logs : List LogEntry) (g : Observe)
    → ((restore_logs n i logs g).last_errors ≡ g.last_errors)
      × ((restore_logs n i logs g).counters ≡ g.counters)
unfolding restore_logs restore_entry
restore_logs_frame zero i logs g = (refl, refl)
restore_logs_frame (suc n) i logs g =
    ground (arith, restore_logs_frame n (i + 1) logs (restore_entry (get_or logs i no_entry) g))

module _ (g g' : Observe) (v : IsSized g) (v' : IsSized g') where
  pub restored_counters : (observe_restore (observe_snapshot g) g').counters ≡ g.counters
  unfolding observe_restore counter_restore
  restored_counters =
      rw (snapshot_counters g v, (restore_logs_frame _ 0 (observe_snapshot g).logs (blank g')).1)
        (copy_range_all 0 err_domain_count g.counters g'.counters v.counters_size v'.counters_size)

  pub restored_last_errors : (observe_restore (observe_snapshot g) g').last_errors ≡ g.last_errors
  unfolding observe_restore
  restored_last_errors =
      rw (snapshot_last_errors g v, (restore_logs_frame _ 0 (observe_snapshot g).logs (blank g')).0)
        (copy_range_all no_last_error err_domain_count g.last_errors
          (replicate err_domain_count no_last_error) v.errors_size refl)

-- The slots of a snapshot behind its lines are blank.
snapshot_logs_after :
    (hist : List LogEntry) (g : Observe)
    → Holds hist g
    → (k : ℕ) → k < 32
    → min log_ring_depth (length hist) ≤ k
    → get_or (observe_snapshot g).logs k no_entry
      ≡ get_or (replicate log_ring_depth no_entry) k no_entry
unfolding observe_snapshot
snapshot_logs_after hist g h k hk le = rw ((snapshot_window hist g h).0) (
    copy_logs_after (min log_ring_depth (length hist)) 0 (snapshot_start g) g.log_ring
      (replicate log_ring_depth no_entry) k (omega arith))

pub length-snapshot_logs : (g : Observe) → length (observe_snapshot g).logs ≡ 32
unfolding observe_snapshot
length-snapshot_logs g = length-copy_logs (snapshot_count g) 0 (snapshot_start g) g.log_ring _

-- Two states with the same history have the same lines in their snapshots.
pub snapshot_logs_ext :
    (hist : List LogEntry) (g h : Observe)
    → Holds hist g
    → Holds hist h
    → (observe_snapshot g).logs ≡ (observe_snapshot h).logs
snapshot_logs_ext hist g h p q =
    let a = observe_snapshot-window hist g p in
    let b = observe_snapshot-window hist h q in
    get_or_ext no_entry (observe_snapshot g).logs (observe_snapshot h).logs
      (length-snapshot_logs g ∙ sym (length-snapshot_logs h))
      (λ k hk. elim (dec_lt k (min log_ring_depth (length hist))) [
        | yes lt ↦ a.1 k lt ∙ sym (b.1 k lt)
        | no ge ↦
            snapshot_logs_after hist g p k (omega (arith, length-snapshot_logs g)) (omega arith)
            ∙ sym (
                snapshot_logs_after hist h q k (omega (arith, length-snapshot_logs g))
                  (omega arith))
      ])
