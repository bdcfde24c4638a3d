-- ===== src/Observe/Snapshot.antt =====
-- components/blusys/src/observe/snapshot.c: the ring of the last log lines, the last error of each
-- domain, and taking and restoring a snapshot of both and of the counters. The file's statics and
-- the counter slab are one record. Sequence numbers are uint32_t and wrap. A text buffer is the C
-- string that it holds, a list of bytes without NUL.
pub mod Ring
pub mod Restore
pub mod RoundTrip
pub mod Errors
use blusys.Base.{
  ℕ, zero, suc, ◌+◌, ◌-◌, ◌%◌, ◌^◌, Bool, true, false, Option, none, some, List, [], ltb, leb, ◌==◌,
  if◌then◌else◌, get_or, set, take, replicate, copy_range,
}
use blusys.Hal.Error.{err_domain_count}
use blusys.Observe.Counter.{Counters, counter_snapshot, counter_restore, counter_reset_all}

abbrev pub log_ring_depth : ℕ
log_ring_depth = 32

abbrev pub line_max : ℕ
line_max = 160

-- BLUSYS_LOG_ERROR; a severity is its number.
abbrev pub log_error : ℕ
log_error = 0

-- `blusys_observe_log_entry_t`
pub record LogEntry : Type 0 where
  pub sequence : ℕ
  pub level : ℕ
  pub domain : ℕ
  pub text : List ℕ

-- `blusys_observe_last_error_t`
pub record LastError : Type 0 where
  pub sequence : ℕ
  pub level : ℕ
  pub domain : ℕ
  pub valid : Bool
  pub text : List ℕ

-- `blusys_observe_snapshot_t`
pub record Snapshot : Type 0 where
  pub log_count : ℕ
  pub logs : List LogEntry
  pub counters : Counters
  pub last_errors : List LastError

-- `g_log_ring`, `g_last_errors`, `g_log_sequence`, `g_log_count` and the counter slab.
pub record Observe : Type 0 where
  pub log_ring : List LogEntry
  pub last_errors : List LastError
  pub log_sequence : ℕ
  pub log_count : ℕ
  pub counters : Counters

-- What `memset(…, 0, …)` leaves.
abbrev pub no_entry : LogEntry
no_entry = record { sequence = 0; level = 0; domain = 0; text = [] }

abbrev pub no_last_error : LastError
no_last_error = record { sequence = 0; level = 0; domain = 0; valid = false; text = [] }

abbrev pub ring_index : ℕ → ℕ
ring_index sequence = sequence % log_ring_depth

-- `strncpy(dst, text, sizeof(dst) - 1)` and the NUL behind it.
abbrev pub copy_text : List ℕ → List ℕ
copy_text text = take (line_max - 1) text

-- The entry that a call writes.
abbrev pub entry_of : ℕ → ℕ → ℕ → List ℕ → LogEntry
entry_of seq level domain text = record {
  sequence = seq;
  level = level;
  domain = domain;
  text = copy_text text;
}

-- The last-error slot that a line of severity error writes.
abbrev pub error_slot : ℕ → ℕ → ℕ → List ℕ → LastError
error_slot seq level domain text = record {
  sequence = seq;
  level = level;
  domain = domain;
  valid = true;
  text = copy_text text;
}

record_entry : ℕ → ℕ → List ℕ → Observe → Observe
record_entry level domain text g =
    let seq = (g.log_sequence + 1) % 2 ^ 32 in
    record g {
      log_ring =
          set g.log_ring (ring_index ((seq + 2 ^ 32 - 1) % 2 ^ 32))
            (entry_of seq level domain text);
      last_errors =
          if level == log_error
          then set g.last_errors domain (error_slot seq level domain text)
          else g.last_errors;
      log_sequence = seq;
      log_count = if ltb g.log_count log_ring_depth then g.log_count + 1 else g.log_count;
    }

-- `text` is none for NULL.
unfoldable pub record_log : ℕ → ℕ → Option (List ℕ) → Observe → Observe
unfolding record_entry
record_log level domain none g = g
record_log level domain (some text) g =
    if leb err_domain_count domain then g else record_entry level domain text g

-- The copying loop of `blusys_observe_snapshot`, with the rounds left.
unfoldable pub copy_logs : ℕ → ℕ → ℕ → List LogEntry → List LogEntry → List LogEntry
copy_logs zero i start ring logs = logs
copy_logs (suc n) i start ring logs =
    copy_logs n (i + 1) start ring
      (set logs i (get_or ring (ring_index ((start + i) % 2 ^ 32)) no_entry))

unfoldable pub snapshot_count : Observe → ℕ
snapshot_count g = if ltb g.log_count log_ring_depth then g.log_count else log_ring_depth

unfoldable pub snapshot_start : Observe → ℕ
snapshot_start g =
    if ltb (snapshot_count g) g.log_sequence then g.log_sequence - snapshot_count g else 0

unfoldable pub observe_snapshot : Observe → Snapshot
observe_snapshot g = record {
  log_count = g.log_count;
  logs =
      copy_logs (snapshot_count g) 0 (snapshot_start g) g.log_ring
        (replicate log_ring_depth no_entry);
  counters = counter_snapshot g.counters (replicate err_domain_count 0);
  last_errors =
      copy_range no_last_error err_domain_count 0 g.last_errors
        (replicate err_domain_count no_last_error);
}

-- One round of the restoring loop.
unfoldable pub restore_entry : LogEntry → Observe → Observe
restore_entry src g = if src.sequence == 0 then g else record g {
  log_ring = set g.log_ring (ring_index ((src.sequence + 2 ^ 32 - 1) % 2 ^ 32)) src;
  log_sequence = if ltb g.log_sequence src.sequence then src.sequence else g.log_sequence;
  log_count = (g.log_count + 1) % 2 ^ 32;
}

unfoldable pub restore_logs : ℕ → ℕ → List LogEntry → Observe → Observe
restore_logs zero i logs g = g
restore_logs (suc n) i logs g =
    restore_logs n (i + 1) logs (restore_entry (get_or logs i no_entry) g)

abbrev pub blank : Observe → Observe
blank g = record g {
  log_ring = replicate log_ring_depth no_entry;
  last_errors = replicate err_domain_count no_last_error;
  log_sequence = 0;
  log_count = 0;
}

unfoldable pub observe_restore : Snapshot → Observe → Observe
observe_restore s g =
    let count = if ltb s.log_count log_ring_depth then s.log_count else log_ring_depth in
    let h = restore_logs count 0 s.logs (blank g) in
    record h {
      last_errors = copy_range no_last_error err_domain_count 0 s.last_errors h.last_errors;
      counters = counter_restore s.counters h.counters;
    }

unfoldable pub observe_clear : Observe → Observe
observe_clear g = let h = blank g in record h { counters = counter_reset_all h.counters }
