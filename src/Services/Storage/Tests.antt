-- ===== src/Services/Storage/Tests.antt =====
-- The theorems about components/blusys/src/services/storage at concrete files.
use blusys.Base.{◌≡◌, refl, true, none, some, [], ◌∷◌, replicate}
use blusys.Hal.Error.{BlusysErr, ok, err_domain_storage_fs, blusys_err, err_domain_count}
use blusys.Observe.Snapshot.{no_entry, no_last_error, log_ring_depth}
use blusys.Observe.Log.{Logger}
use blusys.Services.Storage.Vfs.{Text, opened_content}
use blusys.Services.Storage.Helpers.{
  State, storage_fail, joined, fits_buffer, storage_build_path, path_too_long, op_build_path,
}
use blusys.Services.Storage.Files.{
  close_file, check_written, write_open_file, write_file, storage_read, listed, is_dots,
}
use blusys.Services.Storage.Fs.{Fs, fs_write, fs_read, fs_append}
use blusys.Base.Texts.{same}
use blusys.Services.Storage.Memory.{Memory, memory, memory_content, memory-IsLawful, put, open_file}
use blusys.Services.Storage.RoundTrip.{at, fs_write-fs_read, fs_append-content}
use blusys.Services.Storage.Spares.{Spares}

abbrev mounted : Fs
mounted = record { base_path = b'/' ∷ b'f' ∷ []; partition_label = [] }

-- The log before the first line.
abbrev silent : Logger
silent = record {
  min_level = 2;
  observe = record {
    log_ring = replicate log_ring_depth no_entry;
    last_errors = replicate err_domain_count no_last_error;
    log_sequence = 0;
    log_count = 0;
    counters = replicate err_domain_count 0;
  };
  stderr_lines = [];
  stdout_lines = [];
}

abbrev empty : State Memory
empty = record { files = λ p. none; held = 0; logger = silent; closes = [] }

abbrev path : Text
path = b'a' ∷ []

-- A path that is too long is counted and logged.
long_path :
    fs_write memory ok (some mounted) (some (replicate 200 b'x')) (some (1 ∷ [])) 1 empty
    ≡ storage_fail err_domain_storage_fs path_too_long op_build_path
        (some (replicate 200 b'x'))
        empty
unfolding fs_write storage_build_path joined fits_buffer storage_fail blusys_err
long_path = refl

listed-dots : listed ((b'.' ∷ []) ∷ path ∷ (b'.' ∷ b'.' ∷ []) ∷ []) ≡ path ∷ []
unfolding listed is_dots
listed-dots = refl

abbrev written : BlusysErr × State Memory
written = fs_write memory ok (some mounted) (some path) (some (1 ∷ 2 ∷ 3 ∷ [])) 3 empty

fs_write-fs_read_example :
    (fs_read memory ok (some mounted) (some path) true 2 true written.1).1 ≡ some (1 ∷ 2 ∷ [])
unfolding fs_write fs_read storage_build_path joined fits_buffer write_file write_open_file
    check_written close_file storage_read open_file put same
fs_write-fs_read_example =
    fs_write-fs_read memory memory_content memory-IsLawful ok ok mounted path (1 ∷ 2 ∷ 3 ∷ []) 3 2
      empty refl refl refl

fs_append-content_example :
    (fs_append memory ok (some mounted) (some path) (some (4 ∷ [])) 1 empty).1.files
      (at mounted path)
    ≡ some (4 ∷ [])
unfolding fs_append storage_build_path joined fits_buffer write_file write_open_file check_written
    close_file open_file put same opened_content
fs_append-content_example =
    fs_append-content memory memory_content memory-IsLawful ok mounted path (4 ∷ []) [] 1 empty refl
      refl refl
