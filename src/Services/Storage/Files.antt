-- ===== src/Services/Storage/Files.antt =====
-- The operations of components/blusys/src/services/internal/storage_helpers.c on files and
-- directories.
use blusys.Base.{
  ℕ, Bool, true, false, not, ◌&&◌, Option, none, some, List, [], ◌∷◌, ◌==◌, ltb, if◌then◌else◌,
  take,
}
use blusys.Hal.Error.{BlusysErr, ok, err_invalid_arg}
use blusys.Services.Storage.Vfs.{
  Text, Mode, writing, reading, appending, created, already_exists, mkdir_failed, Vfs,
}
use blusys.Services.Storage.Helpers.{
  open_failed, write_short, read_failed, remove_failed, stat_failed, mkdir_not_done, opendir_failed,
  Operation, State, storage_fail, lock_result, locked, with_unlock, with_files, no_data, data_of,
  op_write, op_read, op_append, op_remove, op_size, op_mkdir, op_listdir,
}

module _ {F : Type 0} (vfs : Vfs F) where
  -- `fclose`, whose result is not read, and giving the lock.
  unfoldable pub close_file : Text → BlusysErr × State F → BlusysErr × State F
  close_file full_path (err, s) =
      let (closed, files) = vfs.fclose full_path s.files in
      (err, with_unlock (record s { files = files; closes = closed ∷ s.closes }))

  -- The test of what `fwrite` returns.
  unfoldable pub check_written : Operation → ℕ → Option Text → ℕ → ℕ → State F → BlusysErr × State F
  check_written op domain path written size s =
      if written == size then (ok, s) else storage_fail domain write_short op path s

  -- What `blusys_storage_write` and `blusys_storage_append` do to an open file.
  unfoldable pub write_open_file :
      Operation → ℕ → Text → Option Text → List ℕ → ℕ → State F → BlusysErr × State F
  write_open_file op domain full_path path bytes size s =
      let (written, files) = vfs.fwrite full_path (take size bytes) s.files in
      let checked = check_written op domain path written size (with_files files s) in
      close_file full_path (if ltb 0 size then checked else (ok, s))

  -- The two functions, which differ in the mode and in what they log.
  unfoldable pub write_file :
      Mode
      → Operation
      → Option BlusysErr
      → ℕ
      → Option Text
      → Option Text
      → Option (List ℕ)
      → ℕ
      → State F
      → BlusysErr × State F
  write_file mode op lock domain none path bytes size s = (err_invalid_arg, s)
  write_file mode op lock domain (some full_path) path bytes size s =
      let s1 = locked s in
      let opened = elim (vfs.fopen mode full_path s1.files) as (λ x. BlusysErr × State F) [
        | none ↦ storage_fail domain open_failed op path (with_unlock s1)
        | some files ↦
            write_open_file op domain full_path path (data_of bytes) size (with_files files s1)
      ] in
      if no_data bytes size
      then (err_invalid_arg, s)
      else if lock_result lock == ok
      then opened
      else (lock_result lock, s)

  abbrev pub storage_write :
      Option BlusysErr
      → ℕ
      → Option Text
      → Option Text
      → Option (List ℕ)
      → ℕ
      → State F
      → BlusysErr × State F
  storage_write = write_file writing op_write

  abbrev pub storage_append :
      Option BlusysErr
      → ℕ
      → Option Text
      → Option Text
      → Option (List ℕ)
      → ℕ
      → State F
      → BlusysErr × State F
  storage_append = write_file appending op_append

  -- `blusys_storage_read`, with the bytes put into the buffer, none if nothing is.
  unfoldable pub storage_read :
      Option BlusysErr
      → ℕ
      → Option Text
      → Option Text
      → Bool
      → ℕ
      → Bool
      → State F
      → BlusysErr × Option (List ℕ) × State F
  storage_read lock domain none path has_buf buf_size has_out s = (err_invalid_arg, none, s)
  storage_read lock domain (some full_path) path has_buf buf_size has_out s =
      let s1 = locked s in
      let (open_err, not_opened) = storage_fail domain open_failed op_read path (with_unlock s1) in
      let opened =
        elim (vfs.fopen reading full_path s1.files)
          as (λ x. BlusysErr × Option (List ℕ) × State F) [
            | none ↦ (open_err, none, not_opened)
            | some files ↦
                let (bytes, is_error) = vfs.fread full_path buf_size files in
                let s2 = with_files files s1 in
                let (err, s3) = close_file full_path (
                  if is_error then storage_fail domain read_failed op_read path s2 else (ok, s2)) in
                (err, some bytes, s3)
          ] in
      if not has_buf
      then (err_invalid_arg, none, s)
      else if not has_out
      then (err_invalid_arg, none, s)
      else if lock_result lock == ok
      then opened
      else (lock_result lock, none, s)

  unfoldable pub storage_remove :
      Option BlusysErr → ℕ → Option Text → Option Text → State F → BlusysErr × State F
  storage_remove lock domain none path s = (err_invalid_arg, s)
  storage_remove lock domain (some full_path) path s =
      let (is_removed, files) = vfs.remove full_path s.files in
      let s1 = with_files files (locked s) in
      let (err, s2) =
        (if is_removed then (ok, s1) else storage_fail domain remove_failed op_remove path s1) in
      if lock_result lock == ok then (err, with_unlock s2) else (lock_result lock, s)

  -- `blusys_storage_exists`, with what it writes.
  unfoldable pub storage_exists :
      Option BlusysErr → Option Text → Bool → State F → BlusysErr × Option Bool × State F
  storage_exists lock none has_out s = (err_invalid_arg, none, s)
  storage_exists lock (some full_path) has_out s =
      let found = elim (vfs.stat full_path s.files) as (λ x. Bool) [
        | none ↦ false
        | some n ↦ true
      ] in
      if not has_out
      then (err_invalid_arg, none, s)
      else if lock_result lock == ok
      then (ok, some found, with_unlock (locked s))
      else (lock_result lock, none, s)

  -- `blusys_storage_size`, with what it writes.
  unfoldable pub storage_size :
      Option BlusysErr
      → ℕ
      → Option Text
      → Option Text
      → Bool
      → State F
      → BlusysErr × Option ℕ × State F
  storage_size lock domain none path has_out s = (err_invalid_arg, none, s)
  storage_size lock domain (some full_path) path has_out s =
      let s1 = with_unlock (locked s) in
      let (err, s2) = storage_fail domain stat_failed op_size path s1 in
      let found = elim (vfs.stat full_path s.files) as (λ x. BlusysErr × Option ℕ × State F) [
        | none ↦ (err, none, s2)
        | some n ↦ (ok, some n, s1)
      ] in
      if not has_out
      then (err_invalid_arg, none, s)
      else if lock_result lock == ok
      then found
      else (lock_result lock, none, s)

  unfoldable pub storage_mkdir :
      Option BlusysErr → ℕ → Option Text → Option Text → State F → BlusysErr × State F
  storage_mkdir lock domain none path s = (err_invalid_arg, s)
  storage_mkdir lock domain (some []) path s = (err_invalid_arg, s)
  storage_mkdir lock domain (some (c ∷ rest)) path s =
      let (result, files) = vfs.mkdir (c ∷ rest) s.files in
      let s1 = with_files files (locked s) in
      let (err, s2) = elim result as (λ x. BlusysErr × State F) [
        | created ↦ (ok, s1)
        | already_exists ↦ (ok, s1)
        | mkdir_failed ↦ storage_fail domain mkdir_not_done op_mkdir path s1
      ] in
      if lock_result lock == ok then (err, with_unlock s2) else (lock_result lock, s)

-- `strcmp(…, ".") == 0 || strcmp(…, "..") == 0`
unfoldable pub is_dots : Text → Bool
is_dots [] = false
is_dots (a ∷ []) = a == b'.'
is_dots (a ∷ b ∷ []) = a == b'.' && b == b'.'
is_dots (a ∷ b ∷ c ∷ rest) = false

-- The loop of `blusys_storage_listdir`: the names that the callback is given.
unfoldable pub listed : List Text → List Text
listed [] = []
listed (entry ∷ entries) = if is_dots entry then listed entries else entry ∷ listed entries

-- `blusys_storage_listdir`, with the names given to the callback.
unfoldable pub storage_listdir :
    {F : Type 0}
    → Vfs F
    → Option BlusysErr
    → ℕ
    → Option Text
    → Option Text
    → Bool
    → State F
    → BlusysErr × List Text × State F
storage_listdir {F} vfs lock domain none path has_cb s = (err_invalid_arg, [], s)
storage_listdir {F} vfs lock domain (some full_path) path has_cb s =
    let s1 = with_unlock (locked s) in
    let (err, s2) = storage_fail domain opendir_failed op_listdir path s1 in
    let opened = elim (vfs.readdir full_path s.files) as (λ x. BlusysErr × List Text × State F) [
      | none ↦ (err, [], s2)
      | some entries ↦ (ok, listed entries, s1)
    ] in
    if not has_cb
    then (err_invalid_arg, [], s)
    else if lock_result lock == ok
    then opened
    else (lock_result lock, [], s)
