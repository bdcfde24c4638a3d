-- ===== src/Hal/BtStack/Tests.antt =====
-- Tests and witnesses for components/blusys/src/hal/internal/bt_stack.c.
use blusys.Base.{ℕ, ◌≡◌, refl, List, [], ◌∷◌, ◌++◌, replicate}
use blusys.Hal.Error.{ok}
use blusys.Hal.BtStack.{
  bluetooth, ble_gatt, owner_value, grant, withdraw, Turn, BtCall, acquire, release, start,
  lock_take, advance, step, steps, boot,
}
use blusys.Hal.BtStack.Exclusive.{Alternates, current, steps-Alternates}

abbrev turn_of : ℕ → BtCall → Turn
turn_of task call = record { task = task; call = call; lock_err = ok }

-- Two tasks race to the first lock, the second one finds the controller taken, the first one gives
-- it back, and the second one tries again.
abbrev race : List Turn
race =
    replicate 3 (turn_of 1 (acquire bluetooth))
    ++ replicate 4 (turn_of 2 (acquire ble_gatt))
    ++ replicate 6 (turn_of 1 (acquire bluetooth))
    ++ replicate 4 (turn_of 2 (acquire ble_gatt))
    ++ replicate 6 (turn_of 1 (release bluetooth))
    ++ replicate 7 (turn_of 2 (acquire ble_gatt))

race_changes :
    (steps race boot).shared.changes ≡ grant ble_gatt ∷ withdraw bluetooth ∷ grant bluetooth ∷ []
unfolding steps step advance lock_take start owner_value
race_changes = refl

steps-Alternates_example :
    Alternates (current (steps race boot).shared) (steps race boot).shared.changes
steps-Alternates_example = steps-Alternates race
