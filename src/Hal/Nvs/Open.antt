-- ===== src/Hal/Nvs/Open.antt =====
-- Opening and closing a handle of components/blusys/src/hal/nvs.c, and the preparation of the flash
-- in components/blusys/include/blusys/hal/internal/nvs_init.h. What the heap, the lock and the SDK
-- return is decided by an environment; the calls are recorded, newest first.
use blusys.Base.{Bool, true, false, not, Option, none, some, List, ◌∷◌, ◌==◌, if◌then◌else◌}
use blusys.Hal.Error.{BlusysErr, ok, err_invalid_arg, err_no_mem, EspErr, translate_esp_err}
use blusys.Hal.Result.{Returned, done, fail}
use blusys.Hal.Nvs.Flash.{Text}
use blusys.Hal.Nvs.Defs.{Mode, Nvs}

-- What `nvs_flash_init` returns: two errors of its own, or any other result.
pub data FlashInit : Type 0 where
  no_free_pages new_version_found : FlashInit
  returns : EspErr → FlashInit

pub data Call : Type 0 where
  allocated freed : Call
  lock_init lock_take : BlusysErr → Call
  lock_give lock_deinit : Call
  flash_init : FlashInit → Call
  flash_erase : Call
  open_namespace : Text → Mode → EspErr → Call
  close_namespace : Call

abbrev pub Trace : Type 0
Trace = List Call

-- `init_again` is what the second `nvs_flash_init` returns, if there is one.
pub record Env : Type 0 where
  pub alloc : Bool
  pub init : BlusysErr
  pub init_flash : FlashInit
  pub init_again : FlashInit
  pub open_nvs : EspErr

abbrev pub is_made : EspErr → Bool
is_made EspErr.esp_ok = true
is_made _ = false

-- The translation knows neither of the two errors.
unfoldable pub init_result : FlashInit → BlusysErr
init_result no_free_pages = translate_esp_err (EspErr.other 0)
init_result new_version_found = translate_esp_err (EspErr.other 0)
init_result (returns e) = translate_esp_err e

-- `blusys_nvs_ensure_init`
unfoldable pub ensure_init : FlashInit → FlashInit → Trace → BlusysErr × Trace
ensure_init (returns e) again t = (init_result (returns e), flash_init (returns e) ∷ t)
ensure_init first again t =
    (init_result again, flash_init again ∷ flash_erase ∷ flash_init first ∷ t)

-- From the heap on.
unfoldable pub open_nvs_handle : Env → Text → Mode → Trace → Returned Nvs × Trace
open_nvs_handle env name mode t =
    let t1 = lock_init env.init ∷ allocated ∷ t in
    let (init_err, t2) = ensure_init env.init_flash env.init_again t1 in
    let t3 = open_namespace name mode env.open_nvs ∷ t2 in
    if not env.alloc
    then (fail err_no_mem, t)
    else if not (env.init == ok)
    then (fail env.init, freed ∷ t1)
    else if not (init_err == ok)
    then (fail init_err, freed ∷ lock_deinit ∷ t2)
    else if not (is_made env.open_nvs)
    then (fail (translate_esp_err env.open_nvs), freed ∷ lock_deinit ∷ t3)
    else (done (record { mode = mode }), t3)

-- `blusys_nvs_open`
unfoldable pub nvs_open : Env → Option Text → Mode → Bool → Trace → Returned Nvs × Trace
nvs_open env none mode has_out t = (fail err_invalid_arg, t)
nvs_open env (some name) mode has_out t =
    if not has_out then (fail err_invalid_arg, t) else open_nvs_handle env name mode t

-- `blusys_nvs_close`
unfoldable pub nvs_close : BlusysErr → Option Nvs → Trace → BlusysErr × Trace
nvs_close lock_err none t = (err_invalid_arg, t)
nvs_close lock_err (some nvs) t =
    if lock_err == ok
    then (ok, freed ∷ lock_deinit ∷ lock_give ∷ close_namespace ∷ lock_take lock_err ∷ t)
    else (lock_err, lock_take lock_err ∷ t)
