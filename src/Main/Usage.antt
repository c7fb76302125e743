-- ===== src/Main/Usage.antt =====
-- What `main` of src/main.c says about its command line: `print_usage`, and what it puts out before
-- it sets up the logger. `progname` is argv[0]; the version comes from the build.
use Prim.Native.String.{String}
use knockd.Prelude.{ℕ, Bool, List, [], ◌∷◌, ◌++◌, if◌then◌else◌, bytes}
use knockd.Main.Args.{Parsed, goes_on, shows_help, shows_version, wants_file, unknown_option}

-- A line of the text, and what follows it.
abbrev line : String → List ℕ → List ℕ
line text rest = bytes text ++ (10 ∷ rest)

-- The options.
abbrev options_text : List ℕ
options_text = line "Options:" (
    line "  -c, --config <file>  Config file (default: /etc/knockd.conf)" (
      line "  -v, --verbose        Debug logging; overrides log_level" (
        line "  -s, --syslog         Log to syslog instead of stderr" (
          line "  -V, --version        Print the version and exit"
            (line "  -h, --help           Print this help and exit" (line "" []))))))

unfoldable pub print_usage : List ℕ → List ℕ
print_usage progname =
    bytes "Usage: sudo "
    ++ (progname
        ++ line " [OPTIONS]" (
            line "" (
              options_text
              ++ line "knockd runs in the foreground and is meant to be supervised by" (
                  line "systemd, which captures stderr into the journal. It needs root"
                    (line "for the raw capture socket and for iptables." (line "" []))))))

-- What goes to the standard output and what to the standard error.
pub record Said : Type 0 where
  pub out : List ℕ
  pub err : List ℕ

-- From the end of the argument loop to `logger_init`.
unfoldable pub says : List ℕ → List ℕ → Bool → Parsed → Said
says progname version is_root (goes_on o) = record {
  out = [];
  err =
      if is_root
      then []
      else line "Error: knockd needs root for the raw capture socket and for iptables."
          (bytes "Try: sudo " ++ (progname ++ (10 ∷ [])));
}
says progname version is_root shows_help = record { out = print_usage progname; err = [] }
says progname version is_root shows_version = record {
  out = bytes "knockd " ++ (version ++ (10 ∷ []));
  err = [];
}
says progname version is_root (wants_file option) = record {
  out = [];
  err = bytes "Error: " ++ (bytes option ++ line " needs a file path." []);
}
says progname version is_root (unknown_option option) = record {
  out = print_usage progname;
  err = bytes "Error: unknown option '" ++ (bytes option ++ line "'." []);
}
