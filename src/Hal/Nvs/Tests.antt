-- ===== src/Hal/Nvs/Tests.antt =====
-- Tests and witnesses for components/blusys/src/hal/nvs.c, with a store in memory.
use blusys.Base.{◌≡◌, ◌≢◌, refl, true, none, some, List, [], ◌∷◌, arith}
use blusys.Base.Int.{negsuc}
use blusys.Hal.Error.{ok, err_busy, err_invalid_state, translate_esp_err}
use blusys.Hal.Nvs.Flash.{Text, i32, str, i32_kind, kind_of, room_of}
use blusys.Hal.Nvs.Defs.{
  Nvs, read_only, read_write, locked_call, changed, set_value, get_value, nvs_set_i32,
}
use blusys.Hal.Nvs.Memory.{Memory, memory_flash, entry, memory_flash-IsLawful}
use blusys.Hal.Nvs.Session.{
  Operation, commit, erase_key, set, Avoids, AllAvoid, operates, set_value-get_value,
}

abbrev gain : Text
gain = b'g' ∷ []

abbrev name : Text
name = b'n' ∷ []

abbrev empty : Memory
empty key = none

abbrev writer : Nvs
writer = record { mode = read_write }

refused :
    (nvs_set_i32 memory_flash ok
      (some (record { mode = read_only }))
      (some gain)
      (negsuc 4)
      empty).0
    ≡ err_invalid_state
unfolding set_value changed locked_call
refused = refl

-- A name is set and erased, a commit fails for its lock, and the key is still there.
abbrev later : List Operation
later =
    set ok (some name) (some (str (b'a' ∷ b'b' ∷ [])))
    ∷ erase_key ok (some name)
    ∷ commit err_busy
    ∷ []

other_key : some gain ≢ some name
other_key h = absurd (ground (arith, h))

later-Avoid : AllAvoid gain later
unfolding AllAvoid Avoids
later-Avoid = (other_key, (other_key, (tt, tt)))

set_gain :
    (set_value memory_flash ok (some writer) (some gain) (some (i32 (negsuc 4))) empty).0 ≡ ok
unfolding set_value changed locked_call translate_esp_err
set_gain = refl

set_value-get_value_example :
    get_value memory_flash i32_kind ok (some writer) (some gain) true (some 0) (
      operates memory_flash writer later
        (set_value memory_flash ok (some writer) (some gain) (some (i32 (negsuc 4))) empty).1)
    ≡ (ok, some (i32 (negsuc 4)))
unfolding kind_of room_of
set_value-get_value_example =
    set_value-get_value memory_flash entry memory_flash-IsLawful writer ok gain (i32 (negsuc 4))
      later 0 empty set_gain later-Avoid (omega arith)
