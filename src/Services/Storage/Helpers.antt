-- ===== src/Services/Storage/Helpers.antt =====
-- components/blusys/src/services/internal/storage_helpers.c. The result of taking the lock is an
-- argument, none for a lock that is NULL, and so is each text or buffer that can be NULL.
use blusys.Base.{
  ℕ, zero, suc, ◌+◌, ◌-◌, ◌/◌, ◌%◌, ◌^◌, Bool, false, ◌&&◌, Option, none, some, List, [], ◌∷◌, ◌++◌,
  ◌==◌, ltb, if◌then◌else◌, length,
}
use blusys.Hal.Error.{BlusysErr, ok, err_invalid_arg, blusys_err}
use blusys.Observe.Counter.{Counters, counter_inc}
use blusys.Observe.Snapshot.{log_error}
use blusys.Observe.Log.{Logger, codes, log_v}
use blusys.Services.Storage.Vfs.{Text}

-- The values of `blusys_storage_err_code_t`.
abbrev pub path_too_long : ℕ
path_too_long = 0x100

abbrev pub open_failed : ℕ
open_failed = 0x101

abbrev pub write_short : ℕ
write_short = 0x102

abbrev pub read_failed : ℕ
read_failed = 0x103

abbrev pub remove_failed : ℕ
remove_failed = 0x104

abbrev pub stat_failed : ℕ
stat_failed = 0x105

abbrev pub mkdir_not_done : ℕ
mkdir_not_done = 0x106

abbrev pub opendir_failed : ℕ
opendir_failed = 0x107

-- What a log line names as `op`.
pub data Operation : Type 0 where
  op_build_path op_write op_read op_append op_remove op_size op_mkdir op_listdir : Operation

-- What `%s` prints for it.
unfoldable pub op_text : Operation → List ℕ
op_text op_build_path = codes "build_path"
op_text op_write = codes "write"
op_text op_read = codes "read"
op_text op_append = codes "append"
op_text op_remove = codes "remove"
op_text op_size = codes "size"
op_text op_mkdir = codes "mkdir"
op_text op_listdir = codes "listdir"

abbrev hex_digit : ℕ → ℕ
hex_digit n = if ltb n 10 then b'0' + n else b'a' + (n - 10)

-- `%x` of a number of at most so many digits.
unfoldable pub hex_text : ℕ → ℕ → List ℕ
hex_text zero n = []
hex_text (suc digits) n =
    let high = hex_text digits (n / 16) in
    (if n / 16 == 0 then [] else high) ++ hex_digit (n % 16) ∷ []

abbrev path_or_none : Option Text → Text
path_or_none none = codes "(none)"
path_or_none (some path) = path

-- "op=%s path=%s code=0x%x"; the code is a uint16_t.
unfoldable pub fail_message : ℕ → Operation → Option Text → List ℕ
fail_message code op path =
    codes "op="
    ++ (op_text op
        ++ (codes " path=" ++ (path_or_none path ++ (codes " code=0x" ++ hex_text 4 code))))

-- The files, how often the lock is held, the log with its counters, and what each `fclose` has
-- returned, newest first: the source does not read it.
pub record State (F : Type 0) : Type 0 where
  pub files : F
  pub held : ℕ
  pub logger : Logger
  pub closes : List Bool

abbrev pub counters_of : {F : Type 0} → State F → Counters
counters_of s = s.logger.observe.counters

-- `blusys_storage_fail`: it counts, and the line that it logs counts again.
unfoldable pub storage_fail :
    {F : Type 0} → ℕ → ℕ → Operation → Option Text → State F → BlusysErr × State F
storage_fail domain code op path s =
    let observe = s.logger.observe in
    let counted = record observe { counters = counter_inc observe.counters domain 1 } in
    (
      blusys_err domain code,
      record s {
        logger =
            log_v log_error domain (fail_message code op path)
              (record s.logger { observe = counted });
      },
    )

-- The path that `snprintf` prints.
unfoldable pub joined : Text → Option Text → Text
joined base none = base
joined base (some []) = base
joined base (some (c ∷ path)) = base ++ b'/' ∷ c ∷ path

-- `snprintf` returns a negative number for a text that is longer than INT_MAX.
unfoldable pub fits_buffer : Text → ℕ → Bool
fits_buffer text out_size = ltb (length text) out_size && ltb (length text) (2 ^ 31)

-- `blusys_storage_build_path`: the path, or none in place of it.
unfoldable pub storage_build_path :
    {F : Type 0} → Option Text → Option Text → ℕ → ℕ → State F → BlusysErr × Text × State F
storage_build_path none path out_size domain s = (err_invalid_arg, [], s)
storage_build_path (some base) path out_size domain s =
    let (err, s') = storage_fail domain path_too_long op_build_path path s in
    if out_size == 0
    then (err_invalid_arg, [], s)
    else if fits_buffer (joined base path) out_size
    then (ok, joined base path, s)
    else (err, [], s')

-- `lock_result`: what it returns.
abbrev pub lock_result : Option BlusysErr → BlusysErr
lock_result none = err_invalid_arg
lock_result (some err) = err

abbrev pub locked : {F : Type 0} → State F → State F
locked s = record s { held = s.held + 1 }

-- `blusys_lock_give`
abbrev pub with_unlock : {F : Type 0} → State F → State F
with_unlock s = record s { held = s.held - 1 }

abbrev pub with_files : {F : Type 0} → F → State F → State F
with_files files s = record s { files = files }

-- `(data == NULL && size > 0)`
abbrev pub no_data : Option (List ℕ) → ℕ → Bool
no_data none size = ltb 0 size
no_data (some bytes) size = false

abbrev pub data_of : Option (List ℕ) → List ℕ
data_of none = []
data_of (some bytes) = bytes
