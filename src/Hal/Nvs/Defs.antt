-- ===== src/Hal/Nvs/Defs.antt =====
-- The operations of components/blusys/src/hal/nvs.c on a handle. Each takes the result of taking
-- the lock, which it gives again before it returns.
use blusys.Base.{ℕ, Bool, true, false, not, Option, none, some, ◌==◌, if◌then◌else◌}
use blusys.Base.Int.{ℤ}
use blusys.Hal.Error.{BlusysErr, ok, err_invalid_arg, err_invalid_state, EspErr, translate_esp_err}
use blusys.Hal.Nvs.Flash.{
  Text, Value, Kind, u8_kind, u32_kind, u64_kind, i32_kind, str_kind, blob_kind, Flash,
}

-- `blusys_nvs_mode_t`
pub data Mode : Type 0 where
  read_only read_write : Mode

abbrev pub is_read_only : Mode → Bool
is_read_only read_only = true
is_read_only read_write = false

pub record Nvs : Type 0 where
  pub mode : Mode

module _ {F : Type 0} (flash : Flash F) where
  -- A call of the SDK under the lock.
  unfoldable pub locked_call : BlusysErr → (F → EspErr × F) → F → BlusysErr × F
  locked_call lock_err call f =
      let (e, f') = call f in if lock_err == ok then (translate_esp_err e, f') else (lock_err, f)

  -- A change, which a handle for reading refuses.
  unfoldable pub changed : BlusysErr → Nvs → (F → EspErr × F) → F → BlusysErr × F
  changed lock_err nvs call f =
      if is_read_only nvs.mode then (err_invalid_state, f) else locked_call lock_err call f

  -- `blusys_nvs_commit`
  unfoldable pub nvs_commit : BlusysErr → Option Nvs → F → BlusysErr × F
  nvs_commit lock_err none f = (err_invalid_arg, f)
  nvs_commit lock_err (some nvs) f = changed lock_err nvs flash.commit f

  -- `blusys_nvs_erase_key`
  unfoldable pub nvs_erase_key : BlusysErr → Option Nvs → Option Text → F → BlusysErr × F
  nvs_erase_key lock_err none key f = (err_invalid_arg, f)
  nvs_erase_key lock_err (some nvs) none f = (err_invalid_arg, f)
  nvs_erase_key lock_err (some nvs) (some key) f = changed lock_err nvs (flash.erase_key key) f

  -- `blusys_nvs_erase_all`
  unfoldable pub nvs_erase_all : BlusysErr → Option Nvs → F → BlusysErr × F
  nvs_erase_all lock_err none f = (err_invalid_arg, f)
  nvs_erase_all lock_err (some nvs) f = changed lock_err nvs flash.erase_all f

  -- The setters, which differ in the type of the value; a NULL value is none.
  unfoldable pub set_value : BlusysErr → Option Nvs → Option Text → Option Value → F → BlusysErr × F
  set_value lock_err none key value f = (err_invalid_arg, f)
  set_value lock_err (some nvs) none value f = (err_invalid_arg, f)
  set_value lock_err (some nvs) (some key) none f = (err_invalid_arg, f)
  set_value lock_err (some nvs) (some key) (some value) f =
      changed lock_err nvs (flash.set key value) f

  -- The getters: whether the pointer to the value, or to its length, is given, and the room there.
  unfoldable pub get_value :
      Kind → BlusysErr → Option Nvs → Option Text → Bool → Option ℕ → F → BlusysErr × Option Value
  get_value kind lock_err none key has_out room f = (err_invalid_arg, none)
  get_value kind lock_err (some nvs) none has_out room f = (err_invalid_arg, none)
  get_value kind lock_err (some nvs) (some key) has_out room f =
      let (e, value) = flash.get kind key room f in
      if not has_out
      then (err_invalid_arg, none)
      else if lock_err == ok
      then (translate_esp_err e, value)
      else (lock_err, none)

  abbrev pub nvs_get_u8 : BlusysErr → Option Nvs → Option Text → Bool → F → BlusysErr × Option Value
  nvs_get_u8 lock_err nvs key has_out f = get_value u8_kind lock_err nvs key has_out (some 0) f

  abbrev pub nvs_get_u32 :
      BlusysErr → Option Nvs → Option Text → Bool → F → BlusysErr × Option Value
  nvs_get_u32 lock_err nvs key has_out f = get_value u32_kind lock_err nvs key has_out (some 0) f

  abbrev pub nvs_get_i32 :
      BlusysErr → Option Nvs → Option Text → Bool → F → BlusysErr × Option Value
  nvs_get_i32 lock_err nvs key has_out f = get_value i32_kind lock_err nvs key has_out (some 0) f

  abbrev pub nvs_get_u64 :
      BlusysErr → Option Nvs → Option Text → Bool → F → BlusysErr × Option Value
  nvs_get_u64 lock_err nvs key has_out f = get_value u64_kind lock_err nvs key has_out (some 0) f

  abbrev pub nvs_get_str :
      BlusysErr → Option Nvs → Option Text → Bool → Option ℕ → F → BlusysErr × Option Value
  nvs_get_str lock_err nvs key has_length room f =
      get_value str_kind lock_err nvs key has_length room f

  abbrev pub nvs_get_blob :
      BlusysErr → Option Nvs → Option Text → Bool → Option ℕ → F → BlusysErr × Option Value
  nvs_get_blob lock_err nvs key has_length room f =
      get_value blob_kind lock_err nvs key has_length room f

  abbrev pub nvs_set_u8 : BlusysErr → Option Nvs → Option Text → ℕ → F → BlusysErr × F
  nvs_set_u8 lock_err nvs key n f = set_value lock_err nvs key (some (Value.u8 n)) f

  abbrev pub nvs_set_u32 : BlusysErr → Option Nvs → Option Text → ℕ → F → BlusysErr × F
  nvs_set_u32 lock_err nvs key n f = set_value lock_err nvs key (some (Value.u32 n)) f

  abbrev pub nvs_set_i32 : BlusysErr → Option Nvs → Option Text → ℤ → F → BlusysErr × F
  nvs_set_i32 lock_err nvs key z f = set_value lock_err nvs key (some (Value.i32 z)) f

  abbrev pub nvs_set_u64 : BlusysErr → Option Nvs → Option Text → ℕ → F → BlusysErr × F
  nvs_set_u64 lock_err nvs key n f = set_value lock_err nvs key (some (Value.u64 n)) f

  abbrev pub nvs_set_str : BlusysErr → Option Nvs → Option Text → Option Text → F → BlusysErr × F
  nvs_set_str lock_err nvs key none f = set_value lock_err nvs key none f
  nvs_set_str lock_err nvs key (some value) f =
      set_value lock_err nvs key (some (Value.str value)) f

  abbrev pub nvs_set_blob : BlusysErr → Option Nvs → Option Text → Option Text → F → BlusysErr × F
  nvs_set_blob lock_err nvs key none f = set_value lock_err nvs key none f
  nvs_set_blob lock_err nvs key (some value) f =
      set_value lock_err nvs key (some (Value.blob value)) f
