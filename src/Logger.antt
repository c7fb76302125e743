-- ===== src/Logger.antt =====
-- The logger: src/logger.c and include/logger.h. What printf makes of a format and its arguments is
-- given, as the bytes of the whole message; the buffers cut it. `%H:%M:%S` writes three numbers of
-- two digits. Each call puts out one text, by one call of stdio or of syslog.
pub mod Line
mod Tests
use knockd.Prelude.{
  ℕ, ◌+◌, ◌-◌, ◌/◌, ◌%◌, Bool, true, false, Option, none, some, List, [], ◌∷◌, ◌++◌, take,
  if◌then◌else◌, ℤ, pos, ltb_ℤ, bytes,
}

-- `log_level_t`
pub data LogLevel : Type 0 where
  level_error : LogLevel
  level_warn : LogLevel
  level_info : LogLevel
  level_debug : LogLevel

abbrev pub level_value : LogLevel → ℕ
level_value level_error = 0
level_value level_warn = 1
level_value level_info = 2
level_value level_debug = 3

abbrev pub log_msg_max : ℕ
log_msg_max = 896

abbrev pub log_line_max : ℕ
log_line_max = 1024

-- LOG_ERR, LOG_WARNING, LOG_INFO and LOG_DEBUG of <syslog.h>.
unfoldable pub level_to_syslog : LogLevel → ℕ
level_to_syslog level_error = 3
level_to_syslog level_warn = 4
level_to_syslog level_info = 6
level_to_syslog level_debug = 7

unfoldable pub level_tag : LogLevel → List ℕ
level_tag level_error = bytes "ERROR"
level_tag level_warn = bytes "WARN "
level_tag level_info = bytes "INFO "
level_tag level_debug = bytes "DEBUG"

-- `g_use_syslog`, and whether the connection to syslog is open.
pub record Logger : Type 0 where
  pub use_syslog : Bool
  pub connected : Bool

-- Before `logger_init`.
abbrev pub no_logger : Logger
no_logger = record { use_syslog = false; connected = false }

unfoldable pub logger_init : Bool → Logger → Logger
logger_init use_syslog l = record l {
  use_syslog = use_syslog;
  connected = if use_syslog then true else l.connected;
}

unfoldable pub logger_close : Logger → Logger
logger_close l = if l.use_syslog then record l { use_syslog = false; connected = false } else l

-- The fields of struct tm that are used.
pub record Clock : Type 0 where
  pub tm_hour : ℕ
  pub tm_min : ℕ
  pub tm_sec : ℕ

-- What `snprintf` leaves of a text in a buffer of some size, without the NUL.
abbrev pub snprintf : ℕ → List ℕ → List ℕ
snprintf size text = take (size - 1) text

abbrev pub two_digits : ℕ → List ℕ
two_digits n = (48 + n / 10) ∷ (48 + n % 10) ∷ []

-- `timebuf`; `none` where `localtime_r` fails.
unfoldable pub time_text : Option Clock → List ℕ
time_text none = bytes "--:--:--"
time_text (some c) =
    two_digits c.tm_hour ++ (58 ∷ (two_digits c.tm_min ++ (58 ∷ two_digits c.tm_sec)))

-- "[knockd %s %s] " and the rest of the line's format.
abbrev pub line_start : List ℕ → List ℕ → List ℕ
line_start time tag = bytes "[knockd " ++ (time ++ (32 ∷ (tag ++ (93 ∷ 32 ∷ []))))

pub data Output : Type 0 where
  to_syslog : ℕ → List ℕ → Output
  to_stderr : List ℕ → Output

-- `log_msg`; `none` where the message is dropped.
unfoldable pub log_msg : ℤ → Logger → Option Clock → LogLevel → List ℕ → Option Output
unfolding level_to_syslog level_tag time_text
log_msg log_level l now level message =
    if ltb_ℤ log_level (pos (level_value level))
    then none
    else if l.use_syslog
    then some (to_syslog (level_to_syslog level) message)
    else some (
        to_stderr (
          snprintf log_line_max (
            line_start (time_text now) (level_tag level)
            ++ (snprintf log_msg_max message ++ 10 ∷ []))))
