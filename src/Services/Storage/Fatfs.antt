-- ===== src/Services/Storage/Fatfs.antt =====
-- The operations of components/blusys/src/services/storage/fatfs.c on a mounted service. A handle
-- that is NULL is none.
use blusys.Base.{ℕ, Bool, not, Option, none, some, List, [], ◌∷◌, ◌==◌, if◌then◌else◌}
use blusys.Hal.Error.{BlusysErr, ok, err_invalid_arg, err_domain_storage_fatfs}
use blusys.Services.Storage.Vfs.{Text, Vfs}
use blusys.Services.Storage.Helpers.{State, storage_build_path, no_data}
use blusys.Services.Storage.Files.{
  storage_write, storage_append, storage_read, storage_remove, storage_exists, storage_size,
  storage_mkdir, storage_listdir,
}

-- `struct blusys_fatfs` less the handles of the SDK and the lock.
pub record Fatfs : Type 0 where
  pub base_path : Text
  pub partition_label : Text

abbrev pub max_path : ℕ
max_path = 256

-- `blusys_storage_build_path` on the handle and a buffer of the stack.
abbrev pub full_path_of : {F : Type 0} → Fatfs → Text → State F → BlusysErr × Text × State F
full_path_of h path s =
    storage_build_path (some h.base_path) (some path) max_path err_domain_storage_fatfs s

module _ {F : Type 0} (vfs : Vfs F) (lock : BlusysErr) where
  unfoldable pub fatfs_write :
      Option Fatfs → Option Text → Option (List ℕ) → ℕ → State F → BlusysErr × State F
  fatfs_write none path bytes size s = (err_invalid_arg, s)
  fatfs_write (some h) none bytes size s = (err_invalid_arg, s)
  fatfs_write (some h) (some path) bytes size s =
      let (err, full, s1) = full_path_of h path s in
      let written =
        storage_write vfs (some lock) err_domain_storage_fatfs (some full) (some path) bytes size
          s1 in
      if no_data bytes size then (err_invalid_arg, s) else if err == ok then written else (err, s1)

  unfoldable pub fatfs_append :
      Option Fatfs → Option Text → Option (List ℕ) → ℕ → State F → BlusysErr × State F
  fatfs_append none path bytes size s = (err_invalid_arg, s)
  fatfs_append (some h) none bytes size s = (err_invalid_arg, s)
  fatfs_append (some h) (some path) bytes size s =
      let (err, full, s1) = full_path_of h path s in
      let written =
        storage_append vfs (some lock) err_domain_storage_fatfs (some full) (some path) bytes size
          s1 in
      if no_data bytes size then (err_invalid_arg, s) else if err == ok then written else (err, s1)

  unfoldable pub fatfs_read :
      Option Fatfs → Option Text → Bool → ℕ → Bool → State F → BlusysErr × Option (List ℕ) × State F
  fatfs_read none path has_buf buf_size has_out s = (err_invalid_arg, none, s)
  fatfs_read (some h) none has_buf buf_size has_out s = (err_invalid_arg, none, s)
  fatfs_read (some h) (some path) has_buf buf_size has_out s =
      let (err, full, s1) = full_path_of h path s in
      let bytes =
        storage_read vfs (some lock) err_domain_storage_fatfs (some full) (some path) has_buf
          buf_size has_out s1 in
      if not has_buf
      then (err_invalid_arg, none, s)
      else if not has_out
      then (err_invalid_arg, none, s)
      else if err == ok
      then bytes
      else (err, none, s1)

  unfoldable pub fatfs_remove : Option Fatfs → Option Text → State F → BlusysErr × State F
  fatfs_remove none path s = (err_invalid_arg, s)
  fatfs_remove (some h) none s = (err_invalid_arg, s)
  fatfs_remove (some h) (some path) s =
      let (err, full, s1) = full_path_of h path s in
      let removed =
        storage_remove vfs (some lock) err_domain_storage_fatfs (some full) (some path) s1 in
      if err == ok then removed else (err, s1)

  unfoldable pub fatfs_exists :
      Option Fatfs → Option Text → Bool → State F → BlusysErr × Option Bool × State F
  fatfs_exists none path has_out s = (err_invalid_arg, none, s)
  fatfs_exists (some h) none has_out s = (err_invalid_arg, none, s)
  fatfs_exists (some h) (some path) has_out s =
      let (err, full, s1) = full_path_of h path s in
      let found = storage_exists vfs (some lock) (some full) has_out s1 in
      if not has_out
      then (err_invalid_arg, none, s)
      else if err == ok
      then found
      else (err, none, s1)

  unfoldable pub fatfs_size :
      Option Fatfs → Option Text → Bool → State F → BlusysErr × Option ℕ × State F
  fatfs_size none path has_out s = (err_invalid_arg, none, s)
  fatfs_size (some h) none has_out s = (err_invalid_arg, none, s)
  fatfs_size (some h) (some path) has_out s =
      let (err, full, s1) = full_path_of h path s in
      let found =
        storage_size vfs (some lock) err_domain_storage_fatfs (some full) (some path) has_out s1 in
      if not has_out
      then (err_invalid_arg, none, s)
      else if err == ok
      then found
      else (err, none, s1)

  unfoldable pub fatfs_mkdir : Option Fatfs → Option Text → State F → BlusysErr × State F
  fatfs_mkdir none path s = (err_invalid_arg, s)
  fatfs_mkdir (some h) none s = (err_invalid_arg, s)
  fatfs_mkdir (some h) (some []) s = (err_invalid_arg, s)
  fatfs_mkdir (some h) (some (c ∷ rest)) s =
      let (err, full, s1) = full_path_of h (c ∷ rest) s in
      let made =
        storage_mkdir vfs (some lock) err_domain_storage_fatfs (some full) (some (c ∷ rest)) s1 in
      if err == ok then made else (err, s1)

  -- A path that is NULL is the directory that is mounted.
  unfoldable pub fatfs_listdir :
      Option Fatfs → Option Text → Bool → State F → BlusysErr × List Text × State F
  fatfs_listdir none path has_cb s = (err_invalid_arg, [], s)
  fatfs_listdir (some h) path has_cb s =
      let (err, full, s1) =
        storage_build_path (some h.base_path) path max_path err_domain_storage_fatfs s in
      let names =
        storage_listdir vfs (some lock) err_domain_storage_fatfs (some full) path has_cb s1 in
      if not has_cb then (err_invalid_arg, [], s) else if err == ok then names else (err, [], s1)
