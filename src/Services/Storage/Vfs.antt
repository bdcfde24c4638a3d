-- ===== src/Services/Storage/Vfs.antt =====
-- The C library's files, on which components/blusys/src/services/internal/storage_helpers.c stands.
use blusys.Base.{ℕ, ◌≡◌, ◌≢◌, Bool, true, false, Option, none, some, List, [], ◌++◌, take}

-- A text without its NUL.
abbrev pub Text : Type 0
Text = List ℕ

-- The modes "wb", "rb" and "ab".
pub data Mode : Type 0 where
  writing reading appending : Mode

pub data MkdirResult : Type 0 where
  created already_exists mkdir_failed : MkdirResult

-- The calls over an unknown state of the files. `fopen` gives none for NULL; `fwrite` the bytes
-- written; `fread` the bytes read and what `ferror` says then; `fclose` and `remove` whether they return 0;
-- `stat` the size; `readdir` the entries, and none if `opendir` gives NULL.
pub record Vfs (F : Type 0) : Type 0 where
  pub fopen : Mode → Text → F → Option F
  pub fwrite : Text → List ℕ → F → ℕ × F
  pub fread : Text → ℕ → F → List ℕ × Bool
  pub fclose : Text → F → Bool × F
  pub remove : Text → F → Bool × F
  pub stat : Text → F → Option ℕ
  pub mkdir : Text → F → MkdirResult × F
  pub readdir : Text → F → Option (List Text)

-- What a file holds after it is opened.
unfoldable pub opened_content : Mode → Option (List ℕ) → Option (List ℕ)
opened_content writing content = some []
opened_content reading content = content
opened_content appending none = some []
opened_content appending (some bytes) = some bytes

-- The documented behaviour of the calls, for files that hold bytes. The content of a path is what its
-- file holds, and while a stream is open on it, what the file will hold if the stream is closed with
-- success: `fwrite` may keep in a buffer what it says that it has written. Paths that differ name different
-- files, as on SPIFFS, and a call on one leaves the others; the bytes that `fwrite` has accepted stand at the end; an `fclose` that returns 0 has
-- written them all, and nothing is said of one that fails; `fread` without an error gives the file
-- from its start, as far as the buffer reaches.
pub record IsLawful {F : Type 0} (vfs : Vfs F) (content : Text → F → Option (List ℕ)) : Type 0 where
  pub fopen-same :
      (mode : Mode) (p : Text) (f f' : F)
      → vfs.fopen mode p f ≡ some f'
      → content p f' ≡ opened_content mode (content p f)
  pub fopen-other :
      (mode : Mode) (p q : Text) (f f' : F)
      → vfs.fopen mode p f ≡ some f'
      → q ≢ p
      → content q f' ≡ content q f
  pub fwrite-same :
      (p : Text) (bytes old : List ℕ) (f : F)
      → content p f ≡ some old
      → content p (vfs.fwrite p bytes f).1 ≡ some (old ++ take (vfs.fwrite p bytes f).0 bytes)
  pub fwrite-other :
      (p q : Text) (bytes : List ℕ) (f : F)
      → q ≢ p
      → content q (vfs.fwrite p bytes f).1 ≡ content q f
  pub fclose-same :
      (p : Text) (f : F) → (vfs.fclose p f).0 ≡ true → content p (vfs.fclose p f).1 ≡ content p f
  pub fclose-other : (p q : Text) (f : F) → q ≢ p → content q (vfs.fclose p f).1 ≡ content q f
  pub fread-same :
      (p : Text) (size : ℕ) (bytes : List ℕ) (f : F)
      → content p f ≡ some bytes
      → (vfs.fread p size f).1 ≡ false
      → (vfs.fread p size f).0 ≡ take size bytes
  pub remove-same :
      (p : Text) (f : F) → (vfs.remove p f).0 ≡ true → content p (vfs.remove p f).1 ≡ none
  pub remove-other : (p q : Text) (f : F) → q ≢ p → content q (vfs.remove p f).1 ≡ content q f
