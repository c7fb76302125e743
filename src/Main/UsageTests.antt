-- ===== src/Main/UsageTests.antt =====
-- What `main` says on some command lines.
use knockd.Prelude.{◌≡◌, refl, true, false, [], ◌∷◌, take, bytes}
use knockd.Main.Args.{parse_argv, parse_from, switch_of}
use knockd.Main.Usage.{says, print_usage}

no_file :
    says (bytes "knockd") (bytes "2.0") true (parse_argv ("-v" ∷ "--config" ∷ []))
    ≡ record { out = []; err = bytes "Error: --config needs a file path.\n" }
unfolding says parse_argv parse_from switch_of
no_file = refl

-- The option that is not known is named, and the text of the help follows.
not_known :
    says (bytes "knockd") (bytes "2.0") true (parse_argv ("-s" ∷ "--daemon" ∷ "-h" ∷ [])) ≡ record {
      out = print_usage (bytes "knockd");
      err = bytes "Error: unknown option '--daemon'.\n";
    }
unfolding says parse_argv parse_from switch_of
not_known = refl

first_line : take 30 (print_usage (bytes "./knockd")) ≡ bytes "Usage: sudo ./knockd [OPTIONS]"
unfolding print_usage
first_line = refl

version_wanted :
    says (bytes "knockd") (bytes "2.0") false (parse_argv ("-V" ∷ []))
    ≡ record { out = bytes "knockd 2.0\n"; err = [] }
unfolding says parse_argv parse_from switch_of
version_wanted = refl
