-- ===== src/Logger/Line.antt =====
-- The lines that src/logger.c writes.
use knockd.Prelude.{
  ℕ, zero, suc, ◌+◌, ◌-◌, ◌*◌, ◌/◌, ◌%◌, ◌≤◌, ◌≡◌, refl, ap, subst, Option, none, some, List, [],
  ◌∷◌, ◌++◌, length, take, length-append, if◌then◌else◌, arith, ℤ, pos, leb_ℤ, bytes,
}
use knockd.Logger.{
  LogLevel, level_error, level_warn, level_info, level_debug, level_value, level_tag,
  level_to_syslog, Logger, Clock, time_text, line_start, Output, to_syslog, to_stderr, log_msg,
}

take_short : (n : ℕ) (xs : List ℕ) → length xs ≤ n → take n xs ≡ xs
take_short zero [] h = refl
take_short zero (x ∷ xs) h = absurd (omega arith)
take_short (suc n) [] h = refl
take_short (suc n) (x ∷ xs) h = ap (λ l. x ∷ l) (take_short n xs (omega arith))

length-take-le : (n : ℕ) (xs : List ℕ) → length (take n xs) ≤ n
length-take-le zero xs = omega arith
length-take-le (suc n) [] = omega arith
length-take-le (suc n) (x ∷ xs) = omega (arith, length-take-le n xs)

length-line_start :
    (now : Option Clock) (level : LogLevel)
    → length (line_start (time_text now) (level_tag level)) ≡ 24
unfolding time_text level_tag
length-line_start none level_error = refl
length-line_start none level_warn = refl
length-line_start none level_info = refl
length-line_start none level_debug = refl
length-line_start (some c) level_error = refl
length-line_start (some c) level_warn = refl
length-line_start (some c) level_info = refl
length-line_start (some c) level_debug = refl

-- The number of a level, its priority in <syslog.h>, where LOG_ERR, LOG_WARNING, LOG_INFO and LOG_DEBUG
-- are 3, 4, 6 and 7, and its tag.
pub data ShownAs : LogLevel → ℕ → ℕ → List ℕ → Type 0 where
  as_error : ShownAs level_error 0 3 (bytes "ERROR")
  as_warning : ShownAs level_warn 1 4 (bytes "WARN ")
  as_info : ShownAs level_info 2 6 (bytes "INFO ")
  as_debug : ShownAs level_debug 3 7 (bytes "DEBUG")

-- A number below a hundred as two decimal digits.
abbrev pub Reads : ℕ → ℕ → ℕ → Type 0
Reads n d1 d0 = (48 ≤ d1) × (d1 ≤ 57) × (48 ≤ d0) × (d0 ≤ 57) × (10 * (d1 - 48) + (d0 - 48) ≡ n)

-- What stands for the time: hours, minutes and seconds with colons between them, or dashes where the
-- time is not known.
pub data Stamp : Option Clock → List ℕ → Type 0 where
  unknown : Stamp none (bytes "--:--:--")
  known :
      {c : Clock} {h1 h0 m1 m0 s1 s0 : ℕ}
      → Reads c.tm_hour h1 h0
      → Reads c.tm_min m1 m0
      → Reads c.tm_sec s1 s0
      → Stamp (some c) (h1 ∷ h0 ∷ 58 ∷ m1 ∷ m0 ∷ 58 ∷ s1 ∷ s0 ∷ [])

-- The fields as `localtime_r` leaves them; a leap second is the second 60.
abbrev pub InRange : Option Clock → Type 0
InRange none = Unit
InRange (some c) = (c.tm_hour ≤ 23) × (c.tm_min ≤ 59) × (c.tm_sec ≤ 60)

two_digits-Reads : (n : ℕ) → n ≤ 99 → Reads n (48 + n / 10) (48 + n % 10)
two_digits-Reads n h = (omega arith, omega arith, omega arith, omega arith, omega arith)

time_text-Stamp : (now : Option Clock) → InRange now → Stamp now (time_text now)
unfolding time_text
time_text-Stamp none h = unknown
time_text-Stamp (some c) (h, m, sec) =
    known (two_digits-Reads c.tm_hour (omega arith)) (two_digits-Reads c.tm_min (omega arith))
      (two_digits-Reads c.tm_sec (omega arith))

-- The line with as much of the message as is kept.
abbrev pub whole_line : List ℕ → List ℕ → List ℕ → List ℕ
whole_line time tag message =
    bytes "[knockd "
    ++ (time ++ (bytes " " ++ (tag ++ (bytes "] " ++ (take 895 message ++ 10 ∷ [])))))

-- What `log_msg` makes of the buffers, in one piece.
log_line :
    (now : Option Clock) (level : LogLevel) (message : List ℕ)
    → line_start (time_text now) (level_tag level) ++ (take 895 message ++ 10 ∷ [])
      ≡ whole_line (time_text now) (level_tag level) message
unfolding time_text level_tag
log_line none level_error message = refl
log_line none level_warn message = refl
log_line none level_info message = refl
log_line none level_debug message = refl
log_line (some c) level_error message = refl
log_line (some c) level_warn message = refl
log_line (some c) level_info message = refl
log_line (some c) level_debug message = refl

length-line :
    (now : Option Clock) (level : LogLevel) (message : List ℕ)
    → length (line_start (time_text now) (level_tag level) ++ (take 895 message ++ 10 ∷ [])) ≤ 920
length-line now level message = omega (
  arith,
  length-append (line_start (time_text now) (level_tag level)) (take 895 message ++ 10 ∷ []),
  length-append (take 895 message) (10 ∷ []),
  length-line_start now level,
  length-take-le 895 message,
)

-- What is put out for a message at a level, with the code's own names for it.
abbrev shown_by : ℤ → Logger → ℕ → ℕ → List ℕ → List ℕ → Option Output
shown_by log_level l value priority message line =
    if leb_ℤ (pos value) log_level
    then (if l.use_syslog then some (to_syslog priority message) else some (to_stderr line))
    else none

log_msg_shown :
    (log_level : ℤ) (l : Logger) (now : Option Clock) (level : LogLevel) (message : List ℕ)
    → let line = whole_line (time_text now) (level_tag level) message in
      (length line ≤ 920)
      × (log_msg log_level l now level message
          ≡ shown_by log_level l (level_value level) (level_to_syslog level) message line)
unfolding log_msg
log_msg_shown log_level l now level message =
    let text = line_start (time_text now) (level_tag level) ++ (take 895 message ++ 10 ∷ []) in
    let short = length-line now level message in
    subst
      (λ line.
        (length line ≤ 920)
        × (log_msg log_level l now level message
            ≡ shown_by log_level l (level_value level) (level_to_syslog level) message line))
      (log_line now level message) (short, rw (take_short 1023 text (omega arith)) (ground arith))

-- What is put out for a message, with the number, the priority and the tag of its level, at a time that
-- is not known or whose fields are in range: nothing if the number is above the configured level. Otherwise, to syslog, all of the message with the priority,
-- however long it is; or, to stderr, one line `[knockd HH:MM:SS TAG] ` with the message's first 895
-- bytes and the line's end. That line is never cut: it has at most 920 bytes.
pub log_msg_lem :
    (log_level : ℤ) (l : Logger) (now : Option Clock) (level : LogLevel) (value priority : ℕ)
    (tag message : List ℕ)
    → ShownAs level value priority tag
    → InRange now
    → (time : List ℕ) × Stamp now time
      × (length (whole_line time tag message) ≤ 920)
      × (log_msg log_level l now level message ≡ (
          if leb_ℤ (pos value) log_level
          then (if l.use_syslog
              then some (to_syslog priority message)
              else some (to_stderr (whole_line time tag message)))
          else none))
unfolding level_tag level_to_syslog
log_msg_lem log_level l now _ _ _ _ message as_error h =
    let k = log_msg_shown log_level l now level_error message in
    (time_text now, time_text-Stamp now h, k.0, k.1)
log_msg_lem log_level l now _ _ _ _ message as_warning h =
    let k = log_msg_shown log_level l now level_warn message in
    (time_text now, time_text-Stamp now h, k.0, k.1)
log_msg_lem log_level l now _ _ _ _ message as_info h =
    let k = log_msg_shown log_level l now level_info message in
    (time_text now, time_text-Stamp now h, k.0, k.1)
log_msg_lem log_level l now _ _ _ _ message as_debug h =
    let k = log_msg_shown log_level l now level_debug message in
    (time_text now, time_text-Stamp now h, k.0, k.1)
