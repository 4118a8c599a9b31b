-- ===== src/Logger.antt =====
-- include/core/logger.hpp: the level of the log, its file and the standard error.
pub mod Lines
use libgossip.Base.{
  ℕ, Bool, false, Option, none, some, List, [], ◌∷◌, ◌++◌, ltb, if◌then◌else◌, holds, Bytes,
  bytes_discrete,
}
use libgossip.Net.Send.Arrival.{written}

pub data LogLevel : Type 0 where
  trace debug info warn error fatal : LogLevel
  other : ℕ → LogLevel

-- The number of a level.
unfoldable pub level_number : LogLevel → ℕ
level_number LogLevel.trace = 0
level_number LogLevel.debug = 1
level_number LogLevel.info = 2
level_number LogLevel.warn = 3
level_number LogLevel.error = 4
level_number LogLevel.fatal = 5
level_number (LogLevel.other n) = n

-- LogLevelToString
unfoldable pub log_level_to_string : LogLevel → Bytes
log_level_to_string LogLevel.trace = b'T' ∷ b'R' ∷ b'A' ∷ b'C' ∷ b'E' ∷ []
log_level_to_string LogLevel.debug = b'D' ∷ b'E' ∷ b'B' ∷ b'U' ∷ b'G' ∷ []
log_level_to_string LogLevel.info = b'I' ∷ b'N' ∷ b'F' ∷ b'O' ∷ []
log_level_to_string LogLevel.warn = b'W' ∷ b'A' ∷ b'R' ∷ b'N' ∷ []
log_level_to_string LogLevel.error = b'E' ∷ b'R' ∷ b'R' ∷ b'O' ∷ b'R' ∷ []
log_level_to_string LogLevel.fatal = b'F' ∷ b'A' ∷ b'T' ∷ b'A' ∷ b'L' ∷ []
log_level_to_string (LogLevel.other n) = b'U' ∷ b'N' ∷ b'K' ∷ b'N' ∷ b'O' ∷ b'W' ∷ b'N' ∷ []

-- The members of Logger, `opened` for log_file_.is_open(), and the texts that the files and the
-- standard error have got.
pub record Logger : Type 0 where
  pub opened : Bool
  pub log_file_path : Bytes
  pub min_level : LogLevel
  pub files : List (Bytes × Bytes)
  pub screen : Bytes

-- The text of a file, none if there is no such file.
unfoldable pub file_text : Bytes → List (Bytes × Bytes) → Option Bytes
file_text path [] = none
file_text path ((p, text) ∷ rest) =
    let later = file_text path rest in if holds (bytes_discrete p path) then some text else later

-- Writing at the end of a file, which is made if it is not there.
unfoldable pub append_file : Bytes → Bytes → List (Bytes × Bytes) → List (Bytes × Bytes)
append_file path more [] = (path, more) ∷ []
append_file path more ((p, text) ∷ rest) =
    let later = append_file path more rest in
    if holds (bytes_discrete p path) then (p, text ++ more) ∷ rest else (p, text) ∷ later

-- `can_open` says whether the file can be opened.
unfoldable pub init_logger : (can_open : Bool) → Bytes → LogLevel → Logger → Logger
unfolding append_file
init_logger can_open log_file level l = record l {
  opened = can_open;
  log_file_path = log_file;
  min_level = level;
  files = if can_open then append_file log_file [] l.files else l.files;
}

unfoldable pub set_level : LogLevel → Logger → Logger
set_level level l = record l { min_level = level }

unfoldable pub get_level : Logger → LogLevel
get_level l = l.min_level

-- `stamp` is the time as put_time and the milliseconds give it.
unfoldable pub log_line : Bytes → LogLevel → Bytes → Bytes
unfolding log_level_to_string
log_line stamp level message =
    stamp ++ 32 ∷ b'[' ∷ (log_level_to_string level ++ b']' ∷ 32 ∷ (message ++ 10 ∷ []))

-- "[libgossip] "
abbrev pub screen_prefix : Bytes
screen_prefix = b'[' ∷ b'l' ∷ b'i' ∷ b'b' ∷ b'g' ∷ b'o' ∷ b's' ∷ b's' ∷ b'i' ∷ b'p' ∷ b']' ∷ 32 ∷ []

unfoldable pub log : Bytes → LogLevel → Bytes → Logger → Logger
unfolding log_line append_file level_number
log stamp level message l =
    let line = log_line stamp level message in
    let written = record l {
      files = if l.opened then append_file l.log_file_path line l.files else l.files;
      screen = l.screen ++ (screen_prefix ++ line);
    } in
    if ltb (level_number level) (level_number l.min_level) then l else written

unfoldable pub close_logger : Logger → Logger
close_logger l = record l { opened = false }
