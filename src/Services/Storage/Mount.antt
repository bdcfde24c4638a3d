-- ===== src/Services/Storage/Mount.antt =====
-- Mounting and unmounting of components/blusys/src/services/storage/fs.c and fatfs.c. What the
-- heap, the lock and the SDK return is decided by an environment; the calls are recorded, newest
-- first.
use blusys.Base.{
  ℕ, ◌-◌, Bool, true, false, not, Option, none, some, List, [], ◌∷◌, ◌==◌, ltb, if◌then◌else◌, take,
}
use blusys.Hal.Error.{
  BlusysErr, ok, err_invalid_arg, err_no_mem, EspErr, translate_esp_err_in, err_domain_storage_fs,
  err_domain_storage_fatfs,
}
use blusys.Hal.Result.{Returned, done, fail}
use blusys.Services.Storage.Vfs.{Text}
use blusys.Services.Storage.Fs.{Fs}
use blusys.Services.Storage.Fatfs.{Fatfs}

-- `blusys_fs_config_t` and `blusys_fatfs_config_t`, whose allocation unit the second has alone.
pub record Config : Type 0 where
  pub base_path : Option Text
  pub partition_label : Option Text
  pub max_files : ℕ
  pub allocation_unit_size : ℕ

-- The calls of the SDK: registering the base path with its label, the number of files, and the
-- allocation unit.
pub data Call : Type 0 where
  allocated freed lock_deinit lock_taken lock_given : Call
  lock_init : BlusysErr → Call
  registered : Text → Option Text → ℕ → ℕ → EspErr → Call
  unregistered : Text → Option Text → EspErr → Call
  logged counted : ℕ → Call

abbrev pub Trace : Type 0
Trace = List Call

pub record Env : Type 0 where
  pub alloc : Bool
  pub init : BlusysErr
  pub register : EspErr
  pub lock_result : BlusysErr
  pub unregister : EspErr

-- `strncpy` into a field that is filled with zeros, whose last byte stays 0.
abbrev pub copied : ℕ → Text → Text
copied field_size text = take (field_size - 1) text

abbrev pub copied_label : Option Text → Text
copied_label none = []
copied_label (some label) = copied 17 label

-- `(h->partition_label[0] != '\0') ? h->partition_label : NULL`
abbrev pub label_or_null : Text → Option Text
label_or_null [] = none
label_or_null (c ∷ label) = some (c ∷ label)

abbrev pub files_or_default : ℕ → ℕ
files_or_default max_files = if ltb 0 max_files then max_files else 5

abbrev pub unit_or_default : ℕ → ℕ
unit_or_default allocation_unit_size =
    if ltb 0 allocation_unit_size then allocation_unit_size else 4096

-- "ffat"
abbrev pub default_label : Text
default_label = b'f' ∷ b'f' ∷ b'a' ∷ b't' ∷ []

abbrev pub label_or_default : Option Text → Text
label_or_default none = default_label
label_or_default (some label) = label

abbrev pub is_ok : EspErr → Bool
is_ok EspErr.esp_ok = true
is_ok _ = false

-- From `calloc` on, in either function: `register` is the call of the SDK with what it returns.
unfoldable pub mount_at : {H : Type 0} → ℕ → H → (EspErr → Call) → Env → Trace → Returned H × Trace
mount_at domain h register env t =
    let t1 = lock_init env.init ∷ allocated ∷ t in
    let t2 = register env.register ∷ t1 in
    if not env.alloc
    then (fail err_no_mem, counted domain ∷ logged domain ∷ t)
    else if not (env.init == ok)
    then (fail env.init, freed ∷ t1)
    else if is_ok env.register
    then (done h, logged domain ∷ t2)
    else (
      fail (translate_esp_err_in domain env.register),
      freed ∷ lock_deinit ∷ counted domain ∷ logged domain ∷ t2,
    )

-- `blusys_fs_mount`; a config that is NULL is none.
unfoldable pub fs_mount : Env → Option Config → Bool → Trace → Returned Fs × Trace
fs_mount env none has_out t = (fail err_invalid_arg, t)
fs_mount env (some c) has_out t = elim (c.base_path) as (λ x. Returned Fs × Trace) [
  | none ↦ (fail err_invalid_arg, t)
  | some base ↦
      let h : Fs = record {
        base_path = copied 32 base;
        partition_label = copied_label c.partition_label;
      } in
      let mounted =
        mount_at err_domain_storage_fs h
          (λ e.
            registered (copied 32 base) (label_or_null (copied_label c.partition_label))
              (files_or_default c.max_files) 0 e)
          env t in
      if has_out then mounted else (fail err_invalid_arg, t)
]

-- `blusys_fatfs_mount`
unfoldable pub fatfs_mount : Env → Option Config → Bool → Trace → Returned Fatfs × Trace
fatfs_mount env none has_out t = (fail err_invalid_arg, t)
fatfs_mount env (some c) has_out t = elim (c.base_path) as (λ x. Returned Fatfs × Trace) [
  | none ↦ (fail err_invalid_arg, t)
  | some base ↦
      let label = copied 17 (label_or_default c.partition_label) in
      let h : Fatfs = record { base_path = copied 32 base; partition_label = label } in
      let mounted =
        mount_at err_domain_storage_fatfs h
          (λ e.
            registered (copied 32 base) (some label) (files_or_default c.max_files)
              (unit_or_default c.allocation_unit_size) e)
          env t in
      if has_out then mounted else (fail err_invalid_arg, t)
]

-- From the lock on, in either function; the handle goes whatever the SDK says.
unfoldable pub unmount_at : ℕ → (EspErr → Call) → Env → Trace → BlusysErr × Trace
unmount_at domain unregister env t =
    let t1 = unregister env.unregister ∷ lock_taken ∷ t in
    let t2 = (if is_ok env.unregister then t1 else counted domain ∷ logged domain ∷ t1) in
    if env.lock_result == ok
    then (translate_esp_err_in domain env.unregister, freed ∷ lock_deinit ∷ lock_given ∷ t2)
    else (env.lock_result, t)

-- `blusys_fs_unmount`
unfoldable pub fs_unmount : Env → Option Fs → Trace → BlusysErr × Trace
fs_unmount env none t = (err_invalid_arg, t)
fs_unmount env (some h) t =
    unmount_at err_domain_storage_fs (unregistered h.base_path (label_or_null h.partition_label))
      env t

-- `blusys_fatfs_unmount`
unfoldable pub fatfs_unmount : Env → Option Fatfs → Trace → BlusysErr × Trace
fatfs_unmount env none t = (err_invalid_arg, t)
fatfs_unmount env (some h) t =
    unmount_at err_domain_storage_fatfs (unregistered h.base_path none) env t
