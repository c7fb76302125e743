-- ===== src/Logger/Tests.antt =====
-- Lines of the logger, and the theorem about them at a message that is too long.
use knockd.Prelude.{
  ◌≤◌, ◌≡◌, refl, true, false, Option, none, some, [], ◌∷◌, ◌++◌, length, List, ℕ, arith, replicate,
  pos, bytes,
}
use knockd.Logger.{
  level_error, level_warn, level_debug, Logger, Clock, to_stderr, log_msg, logger_init,
  logger_close,
}
use knockd.Logger.Line.{Stamp, as_error, whole_line, log_msg_lem}

abbrev quiet : Logger
quiet = record { use_syslog = false; connected = false }

abbrev morning : Option Clock
morning = some (record { tm_hour = 7; tm_min = 5; tm_sec = 59 })

shown :
    log_msg (pos 2) quiet morning level_warn (bytes "low")
    ≡ some (to_stderr (bytes "[knockd 07:05:59 WARN ] low" ++ 10 ∷ []))
unfolding log_msg
shown = refl

dropped : log_msg (pos 2) quiet morning level_debug (bytes "low") ≡ none
unfolding log_msg
dropped = refl

-- A logger that is closed goes on to stderr.
closed : logger_close (logger_init true quiet) ≡ quiet
unfolding logger_close logger_init
closed = refl

log_msg_lem_example :
    (time : List ℕ) × Stamp morning time
    × (length (whole_line time (bytes "ERROR") (replicate 2000 120)) ≤ 920)
    × (log_msg (pos 2) quiet morning level_error (replicate 2000 120)
        ≡ some (to_stderr (whole_line time (bytes "ERROR") (replicate 2000 120))))
log_msg_lem_example =
    log_msg_lem (pos 2) quiet morning level_error 0 3 (bytes "ERROR") (replicate 2000 120) as_error
      (omega arith, omega arith, omega arith)
