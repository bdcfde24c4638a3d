-- ===== src/Observe/Counter.antt =====
-- components/blusys/src/observe/counter.c: one monotonic uint32_t counter for each error domain.
-- The atomic operations are relaxed and each touches one counter, so a call is a function on the
-- slab.
use blusys.Base.{ℕ, ◌+◌, ◌%◌, ◌^◌, List, leb, if◌then◌else◌, get_or, set, replicate, copy_range}
use blusys.Hal.Error.{err_domain_count}

-- `g_counters`
abbrev pub Counters : Type 0
Counters = List ℕ

unfoldable pub counter_inc : Counters → ℕ → ℕ → Counters
counter_inc g domain by =
    if leb err_domain_count domain then g else set g domain ((get_or g domain 0 + by) % 2 ^ 32)

unfoldable pub counter_get : Counters → ℕ → ℕ
counter_get g domain = if leb err_domain_count domain then 0 else get_or g domain 0

-- `blusys_counter_snapshot` fills the caller's array from the slab.
unfoldable pub counter_snapshot : Counters → Counters → Counters
counter_snapshot g out = copy_range 0 err_domain_count 0 g out

unfoldable pub counter_restore : Counters → Counters → Counters
counter_restore in_values g = copy_range 0 err_domain_count 0 in_values g

unfoldable pub counter_reset_all : Counters → Counters
counter_reset_all g = copy_range 0 err_domain_count 0 (replicate err_domain_count 0) g
