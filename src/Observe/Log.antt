-- ===== src/Observe/Log.antt =====
-- components/blusys/src/observe/log.c: the severity filter, the prefix of a line, and what a line
-- that passes does to the counters and the ring. `vsnprintf` and the output streams are the C
-- library's: the formatted message is an argument, and what goes to a stream is a list of lines.
pub mod Lines
use blusys.Base.{ℕ, ◌+◌, ◌-◌, some, List, [], ◌∷◌, ◌++◌, ltb, leb, ◌==◌, if◌then◌else◌, take}
use blusys.Observe.Counter.{counter_inc}
use blusys.Observe.Snapshot.{Observe, record_log, line_max}
use Prim.Native.Char.{code}
use Prim.Native.String.{String}

-- The bytes of an ASCII text.
abbrev pub codes : String → List ℕ
codes String.[] = []
codes (String.◌∷◌ c s) = code c ∷ codes s

abbrev pub log_warn : ℕ
log_warn = 1

pub record Logger : Type 0 where
  pub min_level : ℕ
  pub observe : Observe
  pub stderr_lines : List (List ℕ)
  pub stdout_lines : List (List ℕ)

unfoldable pub level_letter : ℕ → ℕ
level_letter level =
    if level == 0
    then b'E'
    else if level == 1
    then b'W'
    else if level == 2
    then b'I'
    else if level == 3
    then b'D'
    else if level == 4
    then b'T'
    else b'?'

unfoldable pub err_domain_string : ℕ → List ℕ
err_domain_string domain =
    if domain == 0
    then codes "generic"
    else if domain == 1
    then codes "framework.observe"
    else if domain == 2
    then codes "driver.display"
    else if domain == 3
    then codes "driver.dht"
    else if domain == 4
    then codes "driver.encoder"
    else if domain == 5
    then codes "driver.seven_seg"
    else if domain == 6
    then codes "driver.lcd"
    else if domain == 7
    then codes "driver.button"
    else if domain == 8
    then codes "storage.fs"
    else if domain == 9
    then codes "storage.fatfs"
    else if domain == 10
    then codes "hal.gpio"
    else if domain == 11
    then codes "hal.timer"
    else if domain == 12
    then codes "hal.uart"
    else if domain == 13
    then codes "persistence"
    else codes "?"

unfoldable pub log_set_min_level : ℕ → Logger → Logger
log_set_min_level level l = record l { min_level = level }

unfoldable pub log_get_min_level : Logger → ℕ
log_get_min_level l = l.min_level

-- `rendered`: both `snprintf` calls cut at their buffer's size less the NUL.
unfoldable pub rendered_line : ℕ → ℕ → List ℕ → List ℕ
unfolding level_letter err_domain_string
rendered_line level domain message = take (line_max + 16 - 1) (
    codes "["
    ++ (level_letter level
        ∷ (codes "]["
            ++ (err_domain_string domain ++ (codes "] " ++ take (line_max - 1) message)))))

-- `message` is what `vsnprintf` would print with room enough.
unfoldable pub log_v : ℕ → ℕ → List ℕ → Logger → Logger
log_v level domain message l =
    let line = rendered_line level domain message in
    if ltb l.min_level level then l else record l {
      stderr_lines = if leb level log_warn then l.stderr_lines ++ line ∷ [] else l.stderr_lines;
      stdout_lines = if leb level log_warn then l.stdout_lines else l.stdout_lines ++ line ∷ [];
      observe =
          record_log level domain (some line)
            (record (l.observe) { counters = counter_inc l.observe.counters domain 1 });
    }
