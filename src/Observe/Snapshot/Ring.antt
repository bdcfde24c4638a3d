-- ===== src/Observe/Snapshot/Ring.antt =====
-- The ring against the history of all recorded lines: it holds the last 32, and a snapshot lists
-- them oldest first.
use blusys.Base.{
  ℕ, zero, suc, ◌+◌, ◌-◌, ◌%◌, ◌^◌, ◌≤◌, ◌<◌, min, ◌≡◌, refl, ◌≢◌, inl, inr, Option, none, some,
  List, [], ◌∷◌, ◌++◌, arith, leb, if◌then◌else◌, length, Bool-cases, ◌∙◌, get_or, set,
  length-append, length-set, length-replicate, get_or-set_self, get_or-set_ne, get_or-append_lt,
  get_or-append_last, replicate,
}
use native.Mathlib.Decide.{ℕ_discrete}
use blusys.Hal.Error.{err_domain_count}
use blusys.Observe.Snapshot.{
  LogEntry, Observe, no_entry, log_ring_depth, ring_index, entry_of, copy_logs, snapshot_count,
  snapshot_start, record_entry, record_log, observe_snapshot, observe_clear,
}

-- The state after lines that made the entries of `hist`, oldest first.
pub record Holds (hist : List LogEntry) (g : Observe) : Type 0 where
  pub ring_size : length g.log_ring ≡ log_ring_depth
  pub short : length hist < 2 ^ 32
  pub sequence : g.log_sequence ≡ length hist
  pub count : g.log_count ≡ min log_ring_depth (length hist)
  pub numbered : (j : ℕ) → j < length hist → (get_or hist j no_entry).sequence ≡ j + 1
  pub recent :
      (j : ℕ)
      → j < length hist
      → length hist ≤ j + log_ring_depth
      → get_or g.log_ring (j % 32) no_entry ≡ get_or hist j no_entry

-- The entry that a call with these arguments adds behind `hist`.
abbrev pub next_entry : List LogEntry → ℕ → ℕ → List ℕ → LogEntry
next_entry hist level domain text = entry_of (length hist + 1) level domain text

-- The history after a call: a NULL text or a domain out of range adds nothing.
unfoldable pub history_after : List LogEntry → ℕ → ℕ → Option (List ℕ) → List LogEntry
history_after hist level domain none = hist
history_after hist level domain (some text) =
    if leb err_domain_count domain then hist else hist ++ next_entry hist level domain text ∷ []

mod-ne_of_window : (j n : ℕ) → j < n → n < j + 32 → n % 32 ≢ j % 32
mod-ne_of_window j n h k = omega arith

record_entry-recent :
    (hist : List LogEntry) (g : Observe) (level domain : ℕ) (text : List ℕ)
    → Holds hist g
    → length hist + 1 < 2 ^ 32
    → (j : ℕ) → j < length hist + 1
    → length hist + 1 ≤ j + 32
    → get_or (record_entry level domain text g).log_ring (j % 32) no_entry
      ≡ get_or (hist ++ next_entry hist level domain text ∷ []) j no_entry
unfolding record_entry
record_entry-recent hist g level domain text h room j hj hw =
    let seq : (g.log_sequence + 1) % 2 ^ 32 ≡ length hist + 1 = omega arith in
    let slot : (length hist + 1 + 2 ^ 32 - 1) % 2 ^ 32 ≡ length hist = omega arith in
    rw (seq, slot)
      (elim (ℕ_discrete j (length hist)) [
        | yes e ↦
            rw
              (
                e,
                get_or-append_last hist (next_entry hist level domain text) no_entry (length hist)
                    refl,
              )
              (get_or-set_self g.log_ring (length hist % 32) _ no_entry (omega arith))
        | no ne ↦
            rw
              (
                get_or-append_lt hist (next_entry hist level domain text ∷ []) j no_entry
                    (omega arith),
                get_or-set_ne g.log_ring (entry_of (length hist + 1) level domain text) no_entry
                    (mod-ne_of_window j (length hist) (omega arith) (omega arith)),
              )
              (h.recent j (omega arith) (omega arith))
      ])

numbered_next :
    (hist : List LogEntry) (level domain : ℕ) (text : List ℕ)
    → ((j : ℕ) → j < length hist → (get_or hist j no_entry).sequence ≡ j + 1)
    → (j : ℕ) → j < length hist + 1
    → (get_or (hist ++ next_entry hist level domain text ∷ []) j no_entry).sequence ≡ j + 1
numbered_next hist level domain text h j hj = elim (ℕ_discrete j (length hist)) [
  | yes e ↦
      rw (get_or-append_last hist (next_entry hist level domain text) no_entry j e) (omega arith)
  | no ne ↦
      rw (get_or-append_lt hist (next_entry hist level domain text ∷ []) j no_entry (omega arith))
        (h j (omega arith))
]

record_entry-Holds :
    (hist : List LogEntry) (g : Observe) (level domain : ℕ) (text : List ℕ)
    → Holds hist g
    → length hist + 1 < 2 ^ 32
    → Holds (hist ++ next_entry hist level domain text ∷ []) (record_entry level domain text g)
unfolding record_entry
record_entry-Holds hist g level domain text h room =
    let size : length (hist ++ next_entry hist level domain text ∷ []) ≡ length hist + 1 =
      omega (arith, length-append hist (next_entry hist level domain text ∷ [])) in
    record {
      ring_size = omega (
        arith,
        length-set g.log_ring (ring_index (((g.log_sequence + 1) % 2 ^ 32 + 2 ^ 32 - 1) % 2 ^ 32))
            (entry_of ((g.log_sequence + 1) % 2 ^ 32) level domain text),
      );
      short = omega arith;
      sequence = omega arith;
      count = ground arith;
      numbered = λ j hj. numbered_next hist level domain text h.numbered j (omega arith);
      recent = λ j hj hw.
          record_entry-recent hist g level domain text h room j (omega arith) (omega arith);
    }

-- Every call of `blusys_observe_record_log` keeps the ring the window on the history of the
-- accepted lines, while fewer than 2 ^ 32 - 1 lines have been recorded.
pub record_log-Holds :
    (hist : List LogEntry) (g : Observe) (level domain : ℕ) (text : Option (List ℕ))
    → Holds hist g
    → length hist + 1 < 2 ^ 32
    → Holds (history_after hist level domain text) (record_log level domain text g)
unfolding record_log history_after
record_log-Holds hist g level domain none h room = h
record_log-Holds hist g level domain (some text) h room =
    elim (Bool-cases (leb err_domain_count domain)) [
      | inl e ↦ rw e h
      | inr e ↦ rw e (record_entry-Holds hist g level domain text h room)
    ]

-- Clearing starts an empty history.
pub observe_clear-Holds : (g : Observe) → Holds [] (observe_clear g)
unfolding observe_clear
observe_clear-Holds g = record {
  ring_size = refl;
  short = omega arith;
  sequence = refl;
  count = refl;
  numbered = λ j hj. absurd (omega arith);
  recent = λ j hj hw. absurd (omega arith);
}

pub length-copy_logs :
    (n i start : ℕ) (ring logs : List LogEntry)
    → length (copy_logs n i start ring logs) ≡ length logs
unfolding copy_logs
length-copy_logs zero i start ring logs = refl
length-copy_logs (suc n) i start ring logs =
    length-copy_logs n (i + 1) start ring _ ∙ length-set logs i _

copy_logs_before :
    (n i start : ℕ) (ring logs : List LogEntry) (k : ℕ)
    → k < i
    → get_or (copy_logs n i start ring logs) k no_entry ≡ get_or logs k no_entry
unfolding copy_logs
copy_logs_before zero i start ring logs k h = refl
copy_logs_before (suc n) i start ring logs k h =
    copy_logs_before n (i + 1) start ring _ k (omega arith)
    ∙ get_or-set_ne logs _ no_entry (λ e. absurd (omega arith))

copy_logs_lem :
    (n i start : ℕ) (ring logs : List LogEntry) (k : ℕ)
    → i ≤ k
    → k < i + n
    → i + n ≤ length logs
    → get_or (copy_logs n i start ring logs) k no_entry
      ≡ get_or ring (ring_index ((start + k) % 2 ^ 32)) no_entry
unfolding copy_logs
copy_logs_lem zero i start ring logs k h hk room = absurd (omega arith)
copy_logs_lem (suc n) i start ring logs k h hk room =
    let v = get_or ring (ring_index ((start + i) % 2 ^ 32)) no_entry in
    elim (ℕ_discrete k i) [
      | yes e ↦ rw e (
          copy_logs_before n (i + 1) start ring (set logs i v) i (omega arith)
          ∙ get_or-set_self logs i v no_entry (omega arith))
      | no ne ↦
          copy_logs_lem n (i + 1) start ring (set logs i v) k (omega arith) (omega arith)
            (omega (arith, length-set logs i v))
    ]

pub copy_logs_after :
    (n i start : ℕ) (ring logs : List LogEntry) (k : ℕ)
    → i + n ≤ k
    → get_or (copy_logs n i start ring logs) k no_entry ≡ get_or logs k no_entry
unfolding copy_logs
copy_logs_after zero i start ring logs k h = refl
copy_logs_after (suc n) i start ring logs k h =
    copy_logs_after n (i + 1) start ring _ k (omega arith)
    ∙ get_or-set_ne logs (get_or ring (ring_index ((start + i) % 2 ^ 32)) no_entry) no_entry
        (λ (e : i ≡ k). absurd (omega arith))

pub snapshot_window :
    (hist : List LogEntry) (g : Observe)
    → Holds hist g
    → (snapshot_count g ≡ min log_ring_depth (length hist))
      × (snapshot_start g ≡ length hist - min log_ring_depth (length hist))
unfolding snapshot_count snapshot_start
snapshot_window hist g h = ground arith

-- A snapshot of a state that holds a history of fewer than 2 ^ 32 lines reports the number of lines that it
-- holds, which is the number recorded but at most 32, and lists the last that many lines of the history,
-- oldest first.
pub observe_snapshot-window :
    (hist : List LogEntry) (g : Observe)
    → Holds hist g
    → ((observe_snapshot g).log_count ≡ min log_ring_depth (length hist))
      × ((k : ℕ)
          → k < min log_ring_depth (length hist)
          → get_or (observe_snapshot g).logs k no_entry
            ≡ get_or hist (length hist - min log_ring_depth (length hist) + k) no_entry)
unfolding observe_snapshot
observe_snapshot-window hist g h =
    let w = snapshot_window hist g h in
    let from = length hist - min log_ring_depth (length hist) in
    (
      h.count,
      λ k hk.
          rw (w.0, w.1)
            (copy_logs_lem (min log_ring_depth (length hist)) 0 from g.log_ring
                (replicate log_ring_depth no_entry) k (omega arith) (omega arith)
                (omega (arith, length-replicate log_ring_depth no_entry))
              ∙ (let e : (from + k) % 2 ^ 32 ≡ from + k = omega arith in
                  rw e (h.recent (from + k) (omega arith) (omega arith)))),
    )
