-- ===== src/Services/Storage/Calls.antt =====
-- The calls of a client of components/blusys/src/services/storage/fs.c on a mounted service.
use blusys.Base.{ℕ, true, some, List}
use blusys.Hal.Error.{BlusysErr}
use blusys.Services.Storage.Vfs.{Text, Vfs}
use blusys.Services.Storage.Helpers.{State}
use blusys.Services.Storage.Fs.{Fs, fs_write, fs_append, fs_read, fs_remove, fs_exists, fs_size}

pub data Call : Type 0 where
  write append : Text → List ℕ → ℕ → Call
  read : Text → ℕ → Call
  remove exists measure : Text → Call

abbrev pub path_of : Call → Text
path_of (write path bytes size) = path
path_of (append path bytes size) = path
path_of (read path size) = path
path_of (remove path) = path
path_of (exists path) = path
path_of (measure path) = path

-- The result of a call, and the state it leaves.
unfoldable pub call : {F : Type 0} → Vfs F → BlusysErr → Fs → Call → State F → BlusysErr × State F
call vfs lock h (write path bytes size) s =
    fs_write vfs lock (some h) (some path) (some bytes) size s
call vfs lock h (append path bytes size) s =
    fs_append vfs lock (some h) (some path) (some bytes) size s
call vfs lock h (read path size) s =
    let (err, bytes, s') = fs_read vfs lock (some h) (some path) true size true s in (err, s')
call vfs lock h (remove path) s = fs_remove vfs lock (some h) (some path) s
call vfs lock h (exists path) s =
    let (err, found, s') = fs_exists vfs lock (some h) (some path) true s in (err, s')
call vfs lock h (measure path) s =
    let (err, found, s') = fs_size vfs lock (some h) (some path) true s in (err, s')
