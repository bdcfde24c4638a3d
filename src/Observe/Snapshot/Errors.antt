-- ===== src/Observe/Snapshot/Errors.antt =====
-- The last-error slots against the history of all recorded lines.
use blusys.Base.{
  get_or-set, ap, ℕ, zero, suc, ◌+◌, ◌%◌, ◌^◌, ◌<◌, ◌≡◌, refl, Bool, ◌&&◌, Option, none, some, List,
  [], ◌∷◌, ◌++◌, arith, leb, ◌==◌, if◌then◌else◌, length, get_or, length-set, replicate, Bool-cases,
  inl, inr,
}
use blusys.Hal.Error.{err_domain_count}
use blusys.Observe.Snapshot.{
  LogEntry, LastError, Observe, no_last_error, error_slot, log_error, record_entry, record_log,
  observe_clear,
}
use blusys.Observe.Snapshot.Ring.{Holds, next_entry, history_after}

-- The entry of the last line of severity error in a domain.
abbrev pub is_error_of : ℕ → LogEntry → Bool
is_error_of domain e = (e.level == log_error) && (e.domain == domain)

unfoldable pub latest_error : ℕ → List LogEntry → Option LogEntry
latest_error domain [] = none
latest_error domain (e ∷ es) = elim (latest_error domain es) [
  | some later ↦ some later
  | none ↦ if is_error_of domain e then some e else none
]

-- What a slot tells.
abbrev pub reported : LastError → Option LogEntry
reported x =
    if x.valid
    then some (record { sequence = x.sequence; level = x.level; domain = x.domain; text = x.text })
    else none

pub record HoldsErrors (hist : List LogEntry) (g : Observe) : Type 0 where
  pub size : length g.last_errors ≡ err_domain_count
  pub slots :
      (d : ℕ)
      → d < err_domain_count
      → reported (get_or g.last_errors d no_last_error) ≡ latest_error d hist

latest_error-append :
    (d : ℕ) (hist : List LogEntry) (e : LogEntry)
    → latest_error d (hist ++ e ∷ []) ≡ (if is_error_of d e then some e else latest_error d hist)
unfolding latest_error
latest_error-append d [] e = ground arith
latest_error-append d (x ∷ xs) e = ground (arith, latest_error-append d xs e)

record_entry-slot :
    (hist : List LogEntry) (g : Observe) (level domain : ℕ) (text : List ℕ)
    → Holds hist g
    → length hist + 1 < 2 ^ 32
    → HoldsErrors hist g
    → domain < err_domain_count
    → (d : ℕ) → d < err_domain_count
    → reported (get_or (record_entry level domain text g).last_errors d no_last_error)
      ≡ latest_error d (hist ++ next_entry hist level domain text ∷ [])
unfolding record_entry
record_entry-slot hist g level domain text h room he hd d hd' =
    let seq : (g.log_sequence + 1) % 2 ^ 32 ≡ length hist + 1 = omega arith in
    let slot = error_slot (length hist + 1) level domain text in
    rw (seq, latest_error-append d hist (next_entry hist level domain text))
      (ground
        (arith, get_or-set g.last_errors domain d slot no_last_error (omega arith), he.slots d hd'))

-- While fewer than 2 ^ 32 - 1 lines have been recorded, every call of `blusys_observe_record_log`
-- keeps the slot of each domain the last line of severity error that was accepted for it.
pub record_log-HoldsErrors :
    (hist : List LogEntry) (g : Observe) (level domain : ℕ) (text : Option (List ℕ))
    → Holds hist g
    → length hist + 1 < 2 ^ 32
    → HoldsErrors hist g
    → HoldsErrors (history_after hist level domain text) (record_log level domain text g)
unfolding record_log history_after
record_log-HoldsErrors hist g level domain none h room he = he
record_log-HoldsErrors hist g level domain (some text) h room he =
    elim (Bool-cases (leb err_domain_count domain)) [
      | inl e ↦ rw e he
      | inr e ↦ rw e (record {
        size =
            unfold record_entry in
            ground (
              arith,
              he.size,
              length-set g.last_errors domain
                  (error_slot ((g.log_sequence + 1) % 2 ^ 32) level domain text),
            );
        slots = λ d hd. record_entry-slot hist g level domain text h room he (ground arith) d hd;
      })
    ]

get_or-replicate : (n d : ℕ) → get_or (replicate n no_last_error) d no_last_error ≡ no_last_error
get_or-replicate zero d = refl
get_or-replicate (suc n) zero = refl
get_or-replicate (suc n) (suc d) = get_or-replicate n d

-- Clearing leaves no last error.
pub observe_clear-HoldsErrors : (g : Observe) → HoldsErrors [] (observe_clear g)
unfolding observe_clear latest_error
observe_clear-HoldsErrors g = record {
  size = refl;
  slots = λ d hd. ap reported (get_or-replicate err_domain_count d);
}
