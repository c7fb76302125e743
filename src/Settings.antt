-- ===== src/Settings.antt =====
-- The configuration as the threads read it: the globals of include/config.h once
-- `config_validate` has run (src/config.c). They are read-only from then on.
use knockd.Prelude.{ℕ, ◌<◌, ◌≤◌, ◌≢◌, List, length, get_or}

pub record Settings : Type 0 where
  -- The first KNOCK_SEQ_LEN entries of KNOCK_SEQUENCE.
  pub knock_sequence : List ℕ
  pub protected_port : ℕ
  pub access_timeout : ℕ
  pub knock_window : ℕ
  pub max_clients : ℕ

-- KNOCK_SEQ_LEN
abbrev pub knock_seq_len : Settings → ℕ
knock_seq_len s = length s.knock_sequence

-- KNOCK_SEQUENCE[i]. Index 0 and the step of a client are in range by the invariants.
abbrev pub knock_port : Settings → ℕ → ℕ
knock_port s i = get_or s.knock_sequence i 0

-- What `config_validate` leaves behind.
pub record IsValid (s : Settings) : Type 0 where
  pub long_enough : 2 ≤ knock_seq_len s
  pub short_enough : knock_seq_len s ≤ 16
  pub nonzero : (i : ℕ) → i < knock_seq_len s → knock_port s i ≢ 0
  pub distinct : (i j : ℕ) → i < j → j < knock_seq_len s → knock_port s i ≢ knock_port s j
  pub window_pos : 0 < s.knock_window
  pub clients_pos : 0 < s.max_clients
