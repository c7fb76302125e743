-- ===== src/Main/Args.antt =====
-- The command line of `main` in src/main.c: its loop over argv[1] on.
use Prim.Native.String.{String}
use text.Mathlib.Text.{◌==◌ as str_eq}
use knockd.Prelude.{Option, none, some, Bool, true, false, ◌||◌, List, [], ◌∷◌, if◌then◌else◌}

pub record Options : Type 0 where
  pub config_file : String
  pub config_explicit : Bool
  pub verbose : Bool
  pub use_syslog : Bool

-- How the loop ends: `main` goes on with the options, returns 0 after the help or the version, or
-- returns 1, for an option at the end that wants a file or for one that it does not know.
pub data Parsed : Type 0 where
  goes_on : Options → Parsed
  shows_help : Parsed
  shows_version : Parsed
  wants_file : String → Parsed
  unknown_option : String → Parsed

-- Which of the comparisons an argument meets.
pub data Switch : Type 0 where
  help : Switch
  version : Switch
  verbosely : Switch
  to_syslog : Switch
  config : Switch
  unknown : Switch

abbrev pub is_either : String → String → String → Bool
is_either arg short long = str_eq arg short || str_eq arg long

unfoldable pub switch_of : String → Switch
switch_of arg =
    if is_either arg "-h" "--help"
    then help
    else if is_either arg "-V" "--version"
    then version
    else if is_either arg "-v" "--verbose"
    then verbosely
    else if is_either arg "-s" "--syslog"
    then to_syslog
    else if is_either arg "-c" "--config"
    then config
    else unknown

-- The loop. `pending` is the argument before, if it was `-c` or `--config`, which takes the next one
-- for its file.
unfoldable pub parse_from : List String → Option String → Options → Parsed
parse_from [] (some option) o = wants_file option
parse_from (file ∷ rest) (some option) o =
    parse_from rest none (record o { config_file = file; config_explicit = true })
parse_from [] none o = goes_on o
parse_from (arg ∷ rest) none o = elim (switch_of arg) [
  | help ↦ shows_help
  | version ↦ shows_version
  | verbosely ↦ parse_from rest none (record o { verbose = true })
  | to_syslog ↦ parse_from rest none (record o { use_syslog = true })
  | config ↦ parse_from rest (some arg) o
  | unknown ↦ unknown_option arg
]

abbrev pub default_options : Options
default_options = record {
  config_file = "/etc/knockd.conf";
  config_explicit = false;
  verbose = false;
  use_syslog = false;
}

unfoldable pub parse_argv : List String → Parsed
parse_argv args = parse_from args none default_options
