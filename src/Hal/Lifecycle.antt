-- ===== src/Hal/Lifecycle.antt =====
-- components/blusys/include/blusys/hal/internal/callback_lifecycle.h: the counter of running
-- callbacks and the closing flag that the drivers with callbacks share.
pub mod Protocol
mod Tests
use blusys.Base.{ℕ, ◌+◌, ◌-◌, ◌%◌, ◌^◌, Bool, Option, none, some, ltb, if◌then◌else◌}

-- The new `callback_active`, an unsigned int, if the callback may run.
unfoldable pub try_enter : ℕ → Bool → Option ℕ
try_enter callback_active closing = if closing then none else some ((callback_active + 1) % 2 ^ 32)

unfoldable pub leave : ℕ → ℕ
leave callback_active = if ltb 0 callback_active then callback_active - 1 else callback_active

-- The condition of the loop of `wait_for_idle`.
unfoldable pub is_active : ℕ → Bool
is_active callback_active = ltb 0 callback_active
