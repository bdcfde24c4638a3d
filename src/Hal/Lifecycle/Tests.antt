-- ===== src/Hal/Lifecycle/Tests.antt =====
-- The theorems about components/blusys/include/blusys/hal/internal/callback_lifecycle.h at concrete
-- sections.
use blusys.Base.{refl, true, false, some, [], ◌∷◌, arith}
use blusys.Hal.Lifecycle.{try_enter, leave, is_active}
use blusys.Hal.Lifecycle.Protocol.{
  Shared, Sections, Call, enters, leaves, closes, calls, stay, then_section, Counts, Quiet,
  drained-Quiet, Sections-Counts,
}

abbrev unused : Shared
unused = record { callback = some 3; callback_active = 0; closing = false; running = [] }

unused-Counts : Counts unused
unused-Counts = record { active = refl; few = ground arith }

-- A callback runs.
abbrev entered : Shared
entered = record { callback = some 3; callback_active = 1; closing = false; running = 3 ∷ [] }

abbrev enters_unused : Call unused entered
unfolding try_enter
enters_unused = enters unused 3 1 refl refl (ground arith)

abbrev leaves_entered : Call entered (record entered { callback_active = 0; running = [] })
unfolding leave
leaves_entered = leaves entered [] 3 [] refl

-- A client closes while a callback runs, which then leaves.
abbrev closing_while_running : Shared
closing_while_running = record entered { closing = true }

abbrev drained : Shared
drained = record { callback = some 3; callback_active = 0; closing = true; running = [] }

abbrev closes_late : Sections unused drained
unfolding leave
closes_late = then_section unused entered drained (calls unused entered enters_unused) (
    then_section entered closing_while_running drained (closes entered) (
      then_section closing_while_running drained drained
        (calls closing_while_running drained (leaves closing_while_running [] 3 [] refl))
        (stay drained)))

drained-Counts : Counts drained
drained-Counts = Sections-Counts unused drained closes_late unused-Counts

drained-Quiet_example : Quiet drained
unfolding is_active
drained-Quiet_example =
    drained-Quiet drained drained drained-Counts refl refl
      (then_section drained drained drained (closes drained) (stay drained))
