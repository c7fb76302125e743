-- ===== src/Main/CommandLine.antt =====
-- Every choice of options can be given to `main` of src/main.c as arguments.
use knockd.Prelude.{◌≡◌, refl, Bool, true, false, Option, none, some, List, [], ◌∷◌, if◌then◌else◌}
use Prim.Native.String.{String}
use knockd.Main.Args.{Options, goes_on, switch_of, parse_from, parse_argv, default_options}

-- In its short or in its long form.
abbrev spelled : Bool → String → String → String
spelled long a b = if long then b else a

abbrev put_switch : Bool → String → List String → List String
put_switch on name rest = if on then name ∷ rest else rest

abbrev put_file : String → Option String → List String → List String
put_file name none rest = rest
put_file name (some file) rest = name ∷ file ∷ rest

-- The arguments for a choice of options: the long or the short forms, with a file or without.
pub arguments : Bool → Bool → Bool → Option String → List String
arguments long verbose use_syslog file = put_switch verbose (spelled long "-v" "--verbose") (
    put_file (spelled long "-c" "--config") file
      (put_switch use_syslog (spelled long "-s" "--syslog") []))

abbrev chosen : Option String → Options → Options
chosen none o = o
chosen (some file) o = record o { config_file = file; config_explicit = true }

-- Every choice of options, in the long and in the short forms, is read back as it was given; any text
-- is taken for the file's name behind `-c`, also one that looks like an option.
pub parse_argv-arguments :
    (long verbose use_syslog : Bool) (file : Option String)
    → parse_argv (arguments long verbose use_syslog file)
      ≡ goes_on
          (chosen file (record default_options { verbose = verbose; use_syslog = use_syslog }))
unfolding parse_argv parse_from switch_of arguments
parse_argv-arguments false false false none = refl
parse_argv-arguments false false true none = refl
parse_argv-arguments false true false none = refl
parse_argv-arguments false true true none = refl
parse_argv-arguments true false false none = refl
parse_argv-arguments true false true none = refl
parse_argv-arguments true true false none = refl
parse_argv-arguments true true true none = refl
parse_argv-arguments false false false (some file) = refl
parse_argv-arguments false false true (some file) = refl
parse_argv-arguments false true false (some file) = refl
parse_argv-arguments false true true (some file) = refl
parse_argv-arguments true false false (some file) = refl
parse_argv-arguments true false true (some file) = refl
parse_argv-arguments true true false (some file) = refl
parse_argv-arguments true true true (some file) = refl
