-- ===== src/Logger.antt =====
-- Logging: fluid/logger.go. A message is the text that the layout and its arguments make.
pub mod Levels
pub mod Filter
use fluidfs.Prelude.{
  ℕ, ◌+◌, Bool, true, false, not, ◌&&◌, List, [], ◌∷◌, ◌++◌, map, Option, none, some, ◌==◌, leb,
  if◌then◌else◌,
}
use fluidfs.Prelude.Text.{Text, text, text_eq, is_empty}

-- The severities, and their numbers.
pub data LogLevel : Type 0 where
  level_debug level_info level_warn level_error level_fatal : LogLevel

abbrev pub severity : LogLevel → ℕ
severity level_debug = 1
severity level_info = 2
severity level_warn = 3
severity level_error = 4
severity level_fatal = 5

-- `LogLevel.String`
abbrev pub level_string : LogLevel → Text
level_string level_debug = text "DEBUG"
level_string level_info = text "INFO"
level_string level_warn = text "WARN"
level_string level_error = text "ERROR"
level_string level_fatal = text "FATAL"

-- `strings.Trim(s, " ")`
abbrev pub trim_left_blanks : Text → Text
trim_left_blanks [] = []
trim_left_blanks (c ∷ s) = let rest = trim_left_blanks s in if c == 32 then rest else c ∷ s

abbrev pub put_back_blank : ℕ → Text → Text
put_back_blank c rest = if c == 32 && is_empty rest then [] else c ∷ rest

abbrev pub trim_right_blanks : Text → Text
trim_right_blanks [] = []
trim_right_blanks (c ∷ s) = put_back_blank c (trim_right_blanks s)

abbrev pub trim_blanks : Text → Text
trim_blanks s = trim_right_blanks (trim_left_blanks s)

-- The switch of `LevelFromString`.
abbrev pub switch_level : Text → LogLevel
switch_level name =
    if text_eq name (text "DEBUG")
    then level_debug
    else if text_eq name (text "INFO")
    then level_info
    else if text_eq name (text "WARN")
    then level_warn
    else if text_eq name (text "WARNING")
    then level_warn
    else if text_eq name (text "ERROR")
    then level_error
    else if text_eq name (text "FATAL")
    then level_fatal
    else level_info

-- `LevelFromString`, where `upper` is the upper case of a rune.
unfoldable pub level_from_string : (ℕ → ℕ) → Text → LogLevel
level_from_string upper name = switch_level (trim_blanks (map upper name))

-- A logger with the lines of its output.
pub record Logger : Type 0 where
  pub level : LogLevel
  pub output : List Text

-- `InitLogger`, where `open_log` answers the lines of the file that is opened to append, or none, and
-- `stdout` are those of the standard output.
unfoldable pub init_logger :
    (ℕ → ℕ) → (Text → Option (List Text)) → List Text → Text → Text → Option Logger
unfolding level_from_string
init_logger upper open_log stdout level path =
    if not (is_empty path)
    then elim (open_log path) [
      | none ↦ none
      | some written ↦ some (record { level = level_from_string upper level; output = written })
    ]
    else some (record { level = level_from_string upper level; output = stdout })

-- `%-7s`
abbrev pub pad : LogLevel → Text
pad level_debug = text "DEBUG  "
pad level_info = text "INFO   "
pad level_warn = text "WARN   "
pad level_error = text "ERROR  "
pad level_fatal = text "FATAL  "

-- `"%-7s [%s]: %s"`
unfoldable pub log_line : LogLevel → Text → Text → Text
log_line level time message = pad level ++ text " [" ++ time ++ text "]: " ++ message

abbrev pub is_fatal : LogLevel → Bool
is_fatal level_fatal = true
is_fatal _ = false

-- `Log`: the logger as the call leaves it, and whether the process exits, as `Fatalln` makes it.
unfoldable pub log : LogLevel → Text → Text → Logger → Logger × Bool
unfolding log_line
log level time message logger =
    if leb (severity logger.level) (severity level)
    then (
      record logger { output = logger.output ++ log_line level time message ∷ [] },
      is_fatal level,
    )
    else (logger, false)

-- `Debug`, `Info`, `Warn`, `Error` and `Fatal`.
abbrev pub debug : Text → Text → Logger → Logger × Bool
debug = log level_debug

abbrev pub info : Text → Text → Logger → Logger × Bool
info = log level_info

abbrev pub warn : Text → Text → Logger → Logger × Bool
warn = log level_warn

abbrev pub error : Text → Text → Logger → Logger × Bool
error = log level_error

abbrev pub fatal : Text → Text → Logger → Logger × Bool
fatal = log level_fatal
