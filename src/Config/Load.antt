-- ===== src/Config/Load.antt =====
-- The parser of the configuration file: the parsing helpers and `config_load` of src/config.c. What
-- is logged is left out; `warn_if_world_readable` is in Config/Mode.
use mathlib.Core.Option
use knockd.Prelude.{
  ℕ, ◌+◌, Bool, true, false, not, ◌&&◌, ◌||◌, Option, none, some, List, [], ◌∷◌, length, leb, ◌==◌,
  if◌then◌else◌, ℤ, pos, negsuc, pos_part, ltb_ℤ,
}
use knockd.Config.Text.{
  is_blank, skip, cut, trim_end, split_at, Strtol, strtol, tokens, fgets_lines,
}
use knockd.Config.{Config, set_sequence, max_knock_seq_len, ifname_max, validate}

abbrev pub int_min : ℤ
int_min = negsuc 2147483647

abbrev pub int_max : ℤ
int_max = pos 2147483647

-- `*end == '\0'`
abbrev pub at_end : List ℕ → Bool
at_end [] = true
at_end (c ∷ cs) = false

-- The checks on what `strtol` gave, for numbers from `low` to `high`.
unfoldable pub checked : ℤ → ℤ → Option Strtol → Option ℤ
checked low high none = none
checked low high (some r) =
    if not (at_end r.end)
    then none
    else if r.erange || (ltb_ℤ r.value low || ltb_ℤ high r.value)
    then none
    else some r.value

-- `none` where it returns -1.
unfoldable pub parse_int : List ℕ → Option ℤ
parse_int val = checked int_min int_max (strtol val)

-- One entry of the sequence.
unfoldable pub parse_port : List ℕ → Option ℤ
parse_port tok = checked (pos 1) (pos 65535) (strtol tok)

-- The loop over the tokens, with the ports so far counted.
unfoldable pub parse_ports : ℕ → List (List ℕ) → Option (List ℕ)
parse_ports count [] = some []
parse_ports count (tok ∷ toks) =
    let rest = parse_ports (count + 1) toks in
    if leb max_knock_seq_len count
    then none
    else Option.bind (parse_port tok) (λ port. Option.map (λ ps. pos_part port ∷ ps) rest)

-- `count == 0`, and the sequence is set otherwise.
unfoldable pub accept_ports : Option (List ℕ) → Config → Config
accept_ports none c = c
accept_ports (some []) c = c
accept_ports (some (p ∷ ps)) c = set_sequence (p ∷ ps) c

unfoldable pub parse_sequence : List ℕ → Config → Config
parse_sequence val c =
    if leb 256 (length val) then c else accept_ports (parse_ports 0 (tokens val)) c

unfoldable pub parse_interface : List ℕ → Config → Config
parse_interface val c =
    if leb ifname_max (length val) then c else record c { knock_interface = val }

-- The keys.
pub data Key : Type 0 where
  sequence_key : Key
  port_key : Key
  timeout_key : Key
  window_key : Key
  max_clients_key : Key
  log_level_key : Key
  interface_key : Key
  unknown_key : Key

unfoldable pub same_string : List ℕ → List ℕ → Bool
same_string [] [] = true
same_string [] (d ∷ ds) = false
same_string (c ∷ cs) [] = false
same_string (c ∷ cs) (d ∷ ds) = c == d && same_string cs ds

abbrev pub sequence_name : List ℕ
sequence_name = 115 ∷ 101 ∷ 113 ∷ 117 ∷ 101 ∷ 110 ∷ 99 ∷ 101 ∷ []

abbrev pub port_name : List ℕ
port_name = 112 ∷ 111 ∷ 114 ∷ 116 ∷ []

abbrev pub timeout_name : List ℕ
timeout_name = 116 ∷ 105 ∷ 109 ∷ 101 ∷ 111 ∷ 117 ∷ 116 ∷ []

abbrev pub window_name : List ℕ
window_name = 119 ∷ 105 ∷ 110 ∷ 100 ∷ 111 ∷ 119 ∷ []

abbrev pub max_clients_name : List ℕ
max_clients_name = 109 ∷ 97 ∷ 120 ∷ 95 ∷ 99 ∷ 108 ∷ 105 ∷ 101 ∷ 110 ∷ 116 ∷ 115 ∷ []

abbrev pub log_level_name : List ℕ
log_level_name = 108 ∷ 111 ∷ 103 ∷ 95 ∷ 108 ∷ 101 ∷ 118 ∷ 101 ∷ 108 ∷ []

abbrev pub interface_name : List ℕ
interface_name = 105 ∷ 110 ∷ 116 ∷ 101 ∷ 114 ∷ 102 ∷ 97 ∷ 99 ∷ 101 ∷ []

-- The chain of strcmp.
unfoldable pub key_of : List ℕ → Key
key_of key =
    if same_string key sequence_name
    then sequence_key
    else if same_string key port_name
    then port_key
    else if same_string key timeout_name
    then timeout_key
    else if same_string key window_name
    then window_key
    else if same_string key max_clients_name
    then max_clients_key
    else if same_string key log_level_name
    then log_level_key
    else if same_string key interface_name
    then interface_key
    else unknown_key

-- `*out` after `parse_int`: a failure leaves it alone.
abbrev pub or_kept : Option ℤ → ℤ → ℤ
or_kept none old = old
or_kept (some n) old = n

unfoldable pub set_key : Key → List ℕ → Config → Config
set_key sequence_key val c = parse_sequence val c
set_key port_key val c = record c { protected_port = or_kept (parse_int val) c.protected_port }
set_key timeout_key val c = record c { access_timeout = or_kept (parse_int val) c.access_timeout }
set_key window_key val c = record c { knock_window = or_kept (parse_int val) c.knock_window }
set_key max_clients_key val c = record c { max_clients = or_kept (parse_int val) c.max_clients }
set_key log_level_key val c = record c { log_level = or_kept (parse_int val) c.log_level }
set_key interface_key val c = parse_interface val c
set_key unknown_key val c = c

-- The value without its comment, its line end and the blanks around it.
unfoldable pub clean_value : List ℕ → List ℕ
clean_value val = trim_end (skip is_blank (cut (λ c. c == 13 || c == 10) (cut (λ c. c == 35) val)))

-- A line without the blanks at its beginning, from the test for a comment on.
unfoldable pub parse_line : List ℕ → Config → Config
parse_line [] c = c
parse_line (x ∷ xs) c = if x == 35 || (x == 10 || x == 13) then c else elim (split_at 61 (x ∷ xs)) [
  | none ↦ c
  | some (key, val) ↦ set_key (key_of (trim_end key)) (clean_value val) c
]

-- The loop of `config_load`. What fgets read is a string up to its first NUL.
unfoldable pub load_lines : List (List ℕ) → Config → Config
load_lines [] c = c
load_lines (l ∷ ls) c = load_lines ls (parse_line (skip is_blank (cut (λ x. x == 0) l)) c)

-- `none` where the file cannot be opened. A read error ends the file.
unfoldable pub config_load : Option (List ℕ) → Config → Config
config_load none c = validate c
config_load (some file) c = validate (load_lines (fgets_lines file) c)
