-- ===== src/Hal/Nvs/Memory.antt =====
-- A store in memory, which shows that the behaviour assumed of the SDK can be met.
use blusys.Base.{ℕ, ◌≤◌, ◌≡◌, refl, true, Option, none, some, ◌==◌, leb, if◌then◌else◌, arith}
use blusys.Base.Texts.{same, same_self, same-ne}
use blusys.Hal.Error.{EspErr}
use blusys.Hal.Nvs.Flash.{
  Text, Value, Kind, u8_kind, u32_kind, u64_kind, i32_kind, str_kind, blob_kind, kind_of, room_of,
  Flash, IsLawful,
}

abbrev pub Memory : Type 0
Memory = Text → Option Value

unfoldable pub put : Text → Option Value → Memory → Memory
put key v f q = if same q key then v else f q

abbrev kind_number : Kind → ℕ
kind_number u8_kind = 0
kind_number u32_kind = 1
kind_number u64_kind = 2
kind_number i32_kind = 3
kind_number str_kind = 4
kind_number blob_kind = 5

-- A value of another kind is not found, and one that has no room is not written.
unfoldable pub read : Kind → Option ℕ → Option Value → EspErr × Option Value
read kind room none = (EspErr.not_found, none)
read kind none (some v) = (EspErr.esp_ok, none)
read kind (some room) (some v) =
    if kind_number (kind_of v) == kind_number kind
    then if leb (room_of v) room then (EspErr.esp_ok, some v) else (EspErr.invalid_size, none)
    else (EspErr.not_found, none)

abbrev pub memory_flash : Flash Memory
memory_flash = record {
  get = λ kind key room f. read kind room (f key);
  set = λ key v f. (EspErr.esp_ok, put key (some v) f);
  erase_key = λ key f. (EspErr.esp_ok, put key none f);
  erase_all = λ f. (EspErr.esp_ok, λ q. none);
  commit = λ f. (EspErr.esp_ok, f);
}

abbrev pub entry : Text → Memory → Option Value
entry key f = f key

read_some :
    (v : Value) (room : ℕ) (f : Memory) (key : Text)
    → f key ≡ some v
    → room_of v ≤ room
    → read (kind_of v) (some room) (f key) ≡ (EspErr.esp_ok, some v)
unfolding read
read_some v room f key e r =
    let same_kind : kind_number (kind_of v) == kind_number (kind_of v) ≡ true = ground arith in
    let fits : leb (room_of v) room ≡ true = ground (arith, r) in rw (e, same_kind, fits) refl

pub memory_flash-IsLawful : IsLawful memory_flash entry
unfolding put
memory_flash-IsLawful = record {
  set-same = λ key v f ok. rw (same_self key) refl;
  set-other = λ key q v f ne. rw (same-ne q key ne) refl;
  get-same = λ key v room f e r. read_some v room f key e r;
  erase_key-other = λ key q f ne. rw (same-ne q key ne) refl;
  commit-same = λ q f. refl;
}
