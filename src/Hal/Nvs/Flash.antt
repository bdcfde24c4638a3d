-- ===== src/Hal/Nvs/Flash.antt =====
-- The SDK's store, on which components/blusys/src/hal/nvs.c stands.
use blusys.Base.{ℕ, suc, ◌≤◌, ◌≡◌, ◌≢◌, Option, some, List, length}
use blusys.Base.Int.{ℤ}
use blusys.Hal.Error.{EspErr}

abbrev pub Text : Type 0
Text = List ℕ

-- What a key holds: the types that the source stores.
pub data Value : Type 0 where
  u8 u32 u64 : ℕ → Value
  i32 : ℤ → Value
  str blob : List ℕ → Value

pub data Kind : Type 0 where
  u8_kind u32_kind u64_kind i32_kind str_kind blob_kind : Kind

unfoldable pub kind_of : Value → Kind
kind_of (Value.u8 n) = u8_kind
kind_of (Value.u32 n) = u32_kind
kind_of (Value.u64 n) = u64_kind
kind_of (Value.i32 z) = i32_kind
kind_of (Value.str bytes) = str_kind
kind_of (Value.blob bytes) = blob_kind

-- The room that a value takes in the buffer of the caller; a text has a NUL.
unfoldable pub room_of : Value → ℕ
room_of (Value.str bytes) = suc (length bytes)
room_of (Value.blob bytes) = length bytes
room_of v = 0

-- The calls over an unknown state of one namespace. `get` has the room of the caller's buffer, none
-- if it is NULL, and gives what it writes there.
pub record Flash (F : Type 0) : Type 0 where
  pub get : Kind → Text → Option ℕ → F → EspErr × Option Value
  pub set : Text → Value → F → EspErr × F
  pub erase_key : Text → F → EspErr × F
  pub erase_all : F → EspErr × F
  pub commit : F → EspErr × F

-- The documented behaviour of the calls: a value that is set can be read by its kind into a buffer
-- with room for it; a call on one key leaves the others; a commit leaves all of them.
pub record IsLawful {F : Type 0} (flash : Flash F) (entry : Text → F → Option Value) : Type 0 where
  pub set-same :
      (key : Text) (v : Value) (f : F)
      → (flash.set key v f).0 ≡ EspErr.esp_ok
      → entry key (flash.set key v f).1 ≡ some v
  pub set-other :
      (key q : Text) (v : Value) (f : F) → q ≢ key → entry q (flash.set key v f).1 ≡ entry q f
  pub get-same :
      (key : Text) (v : Value) (room : ℕ) (f : F)
      → entry key f ≡ some v
      → room_of v ≤ room
      → flash.get (kind_of v) key (some room) f ≡ (EspErr.esp_ok, some v)
  pub erase_key-other :
      (key q : Text) (f : F) → q ≢ key → entry q (flash.erase_key key f).1 ≡ entry q f
  pub commit-same : (q : Text) (f : F) → entry q (flash.commit f).1 ≡ entry q f
