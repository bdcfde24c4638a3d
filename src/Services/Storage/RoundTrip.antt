-- ===== src/Services/Storage/RoundTrip.antt =====
-- What a client of components/blusys/src/services/storage/fs.c reads is what it has written.
use blusys.Base.{
  ℕ, ◌≡◌, refl, ◌∙◌, ap, true, Option, some, List, [], ◌++◌, ◌==◌, if◌then◌else◌, take, arith,
  Bool-cases, Option-cases, inl, inr, Bool, ◌∷◌,
}
use blusys.Hal.Error.{BlusysErr, ok, err_domain_storage_fs, blusys_err}
use blusys.Services.Storage.Vfs.{
  Text, Mode, writing, reading, appending, Vfs, opened_content, IsLawful,
}
use blusys.Services.Storage.Helpers.{
  State, Operation, storage_fail, open_failed, read_failed, joined, fits_buffer, storage_build_path,
  op_write, op_append,
}
use blusys.Services.Storage.Files.{close_file, write_file, storage_read}
use blusys.Services.Storage.Content.{Keeps, blusys_err-ne-ok, write_file-Keeps}
use blusys.Services.Storage.Fs.{Fs, full_path_of, max_path, fs_write, fs_append, fs_read}

-- Where a client's path stands.
abbrev pub at : Fs → Text → Text
at h path = joined h.base_path (some path)

module _ {F : Type 0} (vfs : Vfs F) (content : Text → F → Option (List ℕ))
    (laws : IsLawful vfs content) where
  -- Writing through the service, in either mode.
  written_at :
      (mode : Mode) (op : Operation) (lock : BlusysErr) (h : Fs) (path : Text) (bytes old : List ℕ)
      (size : ℕ) (before : List Bool) (s : State F)
      → opened_content mode (content (at h path) s.files) ≡ some old
      → let (err, full, s1) = full_path_of h path s in
        Keeps vfs content (at h path) (some (old ++ take size bytes)) before (
          if err == ok
          then write_file vfs mode op
              (some lock)
              err_domain_storage_fs
              (some full)
              (some path)
              (some bytes)
              size
              s1
          else (err, s1))
  unfolding storage_build_path storage_fail blusys_err
  written_at mode op lock h path bytes old size before s held =
      elim (Bool-cases (fits_buffer (at h path) max_path)) [
        | inl e ↦ rw e (
            write_file-Keeps vfs content laws mode op lock err_domain_storage_fs (at h path)
              (some path) bytes old size before s held)
        | inr e ↦ rw e (λ z c. absurd (ground (arith, z)))
      ]

  fs_write-content :
      (lock : BlusysErr) (h : Fs) (path : Text) (bytes : List ℕ) (size : ℕ) (s : State F)
      → (fs_write vfs lock (some h) (some path) (some bytes) size s).0 ≡ ok
      → (fs_write vfs lock (some h) (some path) (some bytes) size s).1.closes ≡ true ∷ s.closes
      → content (at h path) (fs_write vfs lock (some h) (some path) (some bytes) size s).1.files
        ≡ some (take size bytes)
  unfolding fs_write opened_content
  fs_write-content lock h path bytes size s =
      written_at writing op_write lock h path bytes [] size s.closes s refl

  -- Reading a file: what is read is its start.
  read_file :
      (lock : BlusysErr) (domain : ℕ) (full : Text) (path : Option Text) (bytes : List ℕ) (size : ℕ)
      (s : State F)
      → content full s.files ≡ some bytes
      → let r = storage_read vfs (some lock) domain (some full) path true size true s in
        r.0 ≡ ok → r.1 ≡ some (take size bytes)
  unfolding storage_read storage_fail close_file opened_content
  read_file lock domain full path bytes size s held = elim (Bool-cases (lock == ok)) [
    | inl e ↦ rw e (elim (Option-cases (vfs.fopen reading full s.files)) [
      | inl n ↦ rw n (λ z. absurd (blusys_err-ne-ok domain open_failed refl z))
      | inr (files, o) ↦
          let same : content full files ≡ some bytes =
            laws.fopen-same reading full s.files files o ∙ held in
          rw o (elim (Bool-cases (vfs.fread full size files).1) [
            | inl k ↦ rw k (λ z. absurd (blusys_err-ne-ok domain read_failed refl z))
            | inr k ↦
                λ z. ap (λ (l : List ℕ). some l) (laws.fread-same full size bytes files same k)
          ])
    ])
    | inr e ↦ rw e (λ z. absurd (ground (arith, e, z)))
  ]

  -- Reading through the service.
  fs_read-content :
      (lock : BlusysErr) (h : Fs) (path : Text) (bytes : List ℕ) (size : ℕ) (s : State F)
      → content (at h path) s.files ≡ some bytes
      → let r = fs_read vfs lock (some h) (some path) true size true s in
        r.0 ≡ ok → r.1 ≡ some (take size bytes)
  unfolding fs_read storage_build_path storage_fail blusys_err
  fs_read-content lock h path bytes size s held =
      elim (Bool-cases (fits_buffer (at h path) max_path)) [
        | inl e ↦
            rw e (read_file lock err_domain_storage_fs (at h path) (some path) bytes size s held)
        | inr e ↦ rw e (λ z. absurd (ground (arith, z)))
      ]

  -- If the C library's files behave as documented, a write has succeeded on a path and the `fclose` in it, whose result
  -- the code does not read, has too, then what is read from the path are the bytes written, as many as the
  -- buffer takes.
  pub fs_write-fs_read :
      (lock lock' : BlusysErr) (h : Fs) (path : Text) (bytes : List ℕ) (size n : ℕ) (s : State F)
      → (fs_write vfs lock (some h) (some path) (some bytes) size s).0 ≡ ok
      → (fs_write vfs lock (some h) (some path) (some bytes) size s).1.closes ≡ true ∷ s.closes
      → (fs_read vfs lock'
          (some h)
          (some path)
          true
          n
          true
          (fs_write vfs lock (some h) (some path) (some bytes) size s).1).0
        ≡ ok
      → (fs_read vfs lock'
          (some h)
          (some path)
          true
          n
          true
          (fs_write vfs lock (some h) (some path) (some bytes) size s).1).1
        ≡ some (take n (take size bytes))
  fs_write-fs_read lock lock' h path bytes size n s written closed =
      fs_read-content lock' h path (take size bytes) n _
        (fs_write-content lock h path bytes size s written closed)

  -- If the C library's files behave as documented, and appending succeeds on a path and the `fclose` in it does too,
  -- the bytes stand behind what was there, and nothing was there if there was no file.
  pub fs_append-content :
      (lock : BlusysErr) (h : Fs) (path : Text) (bytes old : List ℕ) (size : ℕ) (s : State F)
      → opened_content appending (content (at h path) s.files) ≡ some old
      → (fs_append vfs lock (some h) (some path) (some bytes) size s).0 ≡ ok
      → (fs_append vfs lock (some h) (some path) (some bytes) size s).1.closes ≡ true ∷ s.closes
      → content (at h path) (fs_append vfs lock (some h) (some path) (some bytes) size s).1.files
        ≡ some (old ++ take size bytes)
  unfolding fs_append
  fs_append-content lock h path bytes old size s held =
      written_at appending op_append lock h path bytes old size s.closes s held
