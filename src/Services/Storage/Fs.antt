-- ===== src/Services/Storage/Fs.antt =====
-- The operations of components/blusys/src/services/storage/fs.c on a mounted service. A handle that
-- is NULL is none.
use blusys.Base.{ℕ, Bool, not, Option, none, some, List, ◌==◌, if◌then◌else◌}
use blusys.Hal.Error.{BlusysErr, ok, err_invalid_arg, err_domain_storage_fs}
use blusys.Services.Storage.Vfs.{Text, Vfs}
use blusys.Services.Storage.Helpers.{State, storage_build_path, no_data}
use blusys.Services.Storage.Files.{
  storage_write, storage_append, storage_read, storage_remove, storage_exists, storage_size,
}

-- `struct blusys_fs` less the handles of the SDK and the lock.
pub record Fs : Type 0 where
  pub base_path : Text
  pub partition_label : Text

abbrev pub max_path : ℕ
max_path = 128

-- `blusys_storage_build_path` on the handle and a buffer of the stack.
abbrev pub full_path_of : {F : Type 0} → Fs → Text → State F → BlusysErr × Text × State F
full_path_of h path s =
    storage_build_path (some h.base_path) (some path) max_path err_domain_storage_fs s

module _ {F : Type 0} (vfs : Vfs F) (lock : BlusysErr) where
  unfoldable pub fs_write :
      Option Fs → Option Text → Option (List ℕ) → ℕ → State F → BlusysErr × State F
  fs_write none path bytes size s = (err_invalid_arg, s)
  fs_write (some h) none bytes size s = (err_invalid_arg, s)
  fs_write (some h) (some path) bytes size s =
      let (err, full, s1) = full_path_of h path s in
      let written =
        storage_write vfs (some lock) err_domain_storage_fs (some full) (some path) bytes size s1 in
      if no_data bytes size then (err_invalid_arg, s) else if err == ok then written else (err, s1)

  unfoldable pub fs_append :
      Option Fs → Option Text → Option (List ℕ) → ℕ → State F → BlusysErr × State F
  fs_append none path bytes size s = (err_invalid_arg, s)
  fs_append (some h) none bytes size s = (err_invalid_arg, s)
  fs_append (some h) (some path) bytes size s =
      let (err, full, s1) = full_path_of h path s in
      let written =
        storage_append vfs (some lock) err_domain_storage_fs (some full) (some path) bytes size
          s1 in
      if no_data bytes size then (err_invalid_arg, s) else if err == ok then written else (err, s1)

  unfoldable pub fs_read :
      Option Fs → Option Text → Bool → ℕ → Bool → State F → BlusysErr × Option (List ℕ) × State F
  fs_read none path has_buf buf_size has_out s = (err_invalid_arg, none, s)
  fs_read (some h) none has_buf buf_size has_out s = (err_invalid_arg, none, s)
  fs_read (some h) (some path) has_buf buf_size has_out s =
      let (err, full, s1) = full_path_of h path s in
      let bytes =
        storage_read vfs (some lock) err_domain_storage_fs (some full) (some path) has_buf buf_size
          has_out s1 in
      if not has_buf
      then (err_invalid_arg, none, s)
      else if not has_out
      then (err_invalid_arg, none, s)
      else if err == ok
      then bytes
      else (err, none, s1)

  unfoldable pub fs_remove : Option Fs → Option Text → State F → BlusysErr × State F
  fs_remove none path s = (err_invalid_arg, s)
  fs_remove (some h) none s = (err_invalid_arg, s)
  fs_remove (some h) (some path) s =
      let (err, full, s1) = full_path_of h path s in
      let removed =
        storage_remove vfs (some lock) err_domain_storage_fs (some full) (some path) s1 in
      if err == ok then removed else (err, s1)

  unfoldable pub fs_exists :
      Option Fs → Option Text → Bool → State F → BlusysErr × Option Bool × State F
  fs_exists none path has_out s = (err_invalid_arg, none, s)
  fs_exists (some h) none has_out s = (err_invalid_arg, none, s)
  fs_exists (some h) (some path) has_out s =
      let (err, full, s1) = full_path_of h path s in
      let found = storage_exists vfs (some lock) (some full) has_out s1 in
      if not has_out
      then (err_invalid_arg, none, s)
      else if err == ok
      then found
      else (err, none, s1)

  unfoldable pub fs_size : Option Fs → Option Text → Bool → State F → BlusysErr × Option ℕ × State F
  fs_size none path has_out s = (err_invalid_arg, none, s)
  fs_size (some h) none has_out s = (err_invalid_arg, none, s)
  fs_size (some h) (some path) has_out s =
      let (err, full, s1) = full_path_of h path s in
      let found =
        storage_size vfs (some lock) err_domain_storage_fs (some full) (some path) has_out s1 in
      if not has_out
      then (err_invalid_arg, none, s)
      else if err == ok
      then found
      else (err, none, s1)
