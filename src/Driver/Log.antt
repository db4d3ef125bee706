-- ===== src/Driver/Log.antt =====
-- NyanVddLog (driver/src/Driver.cpp): the line buffer, and the log file with its one old generation. Sizes
-- are in bytes; what the file system answers is an argument.
pub mod Laws
use nyan_real_vdd.Base.{ℕ, ◌+◌, ◌-◌, Bool, true, false, not, ◌&&◌, leb, ltb, if◌then◌else◌}

-- ARRAYSIZE(Buf), and the length of L"[nyanvdd] "
abbrev pub buffer_chars : ℕ
buffer_chars = 512

abbrev pub prefix_chars : ℕ
prefix_chars = 10

-- The length of the time stamp that sprintf_s writes before the line.
abbrev pub stamp_chars : ℕ
stamp_chars = 24

abbrev pub max_log_bytes : ℕ
max_log_bytes = 1048576

-- The files driver.log and driver.log.old, by their sizes.
pub record LogFiles : Type 0 where
  pub log : ℕ
  pub old : ℕ

-- What the file system and the C library answer; a conversion to bytes takes one byte for a character.
pub record LogEnv : Type 0 where
  pub opens : Bool
  pub size_known : Bool
  pub moves : Bool
  pub reopens : Bool
  pub converts : Bool

-- The program is ended by the C library, or the line is done with.
pub data Logged : Type 0 where
  aborted : Logged
  logged : LogFiles → Logged

-- The characters in Buf after _vsnwprintf_s with _TRUNCATE, for a message of that length.
abbrev pub formatted : ℕ → ℕ
formatted n =
    let room = buffer_chars - prefix_chars - 1 in prefix_chars + (if leb n room then n else room)

-- MoveFileEx over the old generation.
abbrev rotate : LogEnv → LogFiles → LogFiles
rotate env f = if env.moves then record { log = 0; old = f.log } else f

-- WriteFile at the end of the log.
abbrev append : LogEnv → ℕ → LogFiles → LogFiles
append env chars f = if env.converts then record f { log = f.log + (stamp_chars + chars) } else f

-- From the open of the file on.
unfoldable pub write_line : LogEnv → ℕ → LogFiles → LogFiles
write_line env chars f =
    if not env.opens
    then f
    else if env.size_known && leb max_log_bytes f.log
    then (if env.reopens then append env chars (rotate env f) else rotate env f)
    else append env chars f

-- NyanVddLog: wcscat_s of the line's end does not return when the buffer is full.
unfoldable pub nyan_vdd_log : LogEnv → ℕ → LogFiles → Logged
nyan_vdd_log env n f =
    if ltb (formatted n + 1) buffer_chars
    then logged (write_line env (formatted n + 1) f)
    else aborted
