-- ===== src/Main/Tests.antt =====
-- Whole runs of the program, and the theorems about them.
use knockd.Prelude.{
  arith, subst, inl, inr, ℕ, ◌≤◌, ◌≡◌, ◌↔◌, refl, Bool, true, false, none, some, [], ◌∷◌,
}
use knockd.Firewall.{Command, check_jump}
use knockd.Daemon.{Arrival}
use knockd.Main.{World, main}
use knockd.Main.Args.{
  Options, goes_on, wants_file, unknown_option, parse_argv, parse_from, switch_of, default_options,
}
use knockd.Main.CommandLine.{arguments, parse_argv-arguments}
use knockd.Main.Leaves.{IsClean, main-IsClean}
use knockd.Main.Exits.{Succeeds, MayStart, main_exit}

abbrev pub knock : ℕ → ℕ → Arrival
knock now port = record {
  event = record { src_ip = 10; dst_port = port };
  now = now;
  later = now;
  opened = now;
}

-- There is no jump from INPUT yet; all else succeeds. A client knocks the default sequence.
abbrev pub jumpless : Command → Bool
jumpless check_jump = false
jumpless _ = true

abbrev pub world : World
world = record {
  file = λ name. none;
  is_root = true;
  clients_allocated = true;
  grants_allocated = true;
  thread_created = true;
  net = record { socket = some 5; setsockopt = true; if_nametoindex = λ name. 0 };
  env = record { formats = λ ip. true; succeeds = λ ran cmd. jumpless cmd };
  now = 100;
  turns =
      record {
        arrived = knock 101 7000 ∷ knock 102 8000 ∷ knock 103 9000 ∷ [];
        ticked = 104;
        now = 104;
        swept = 104;
      }
      ∷ [];
}

main-IsClean_example : IsClean (main world ("-v" ∷ []))
main-IsClean_example = main-IsClean world ("-v" ∷ [])

main_exit_example :
    ((main world ("-v" ∷ [])).exit_code ≤ 1)
    × (((main world ("-v" ∷ [])).exit_code ≡ 0) ↔ Succeeds world (parse_argv ("-v" ∷ [])))
main_exit_example = main_exit world ("-v" ∷ [])

abbrev asked : Options
asked = record default_options { config_file = "/tmp/knockd.conf"; config_explicit = true }

asked-parse : parse_argv ("--config" ∷ "/tmp/knockd.conf" ∷ []) ≡ goes_on asked
unfolding parse_argv parse_from switch_of
asked-parse = refl

-- The file that `-c` names is not there.
no_start : ¬ MayStart world (parse_argv ("--config" ∷ "/tmp/knockd.conf" ∷ []))
no_start h = elim (subst (MayStart world) asked-parse h).1 [
  | inl present ↦ absurd (ground (arith, present))
  | inr implicit ↦ absurd (ground (arith, implicit))
]

-- `-c` wants a file, and an unknown option is refused.
no_file : parse_argv ("-v" ∷ "-c" ∷ []) ≡ wants_file "-c"
unfolding parse_argv parse_from switch_of
no_file = refl

unknown_text : parse_argv ("-s" ∷ "-x" ∷ "-h" ∷ []) ≡ unknown_option "-x"
unfolding parse_argv parse_from switch_of
unknown_text = refl

parse_argv-arguments_example :
    parse_argv (arguments true true false (some "-h"))
    ≡ goes_on
        (record default_options { config_file = "-h"; config_explicit = true; verbose = true })
parse_argv-arguments_example = parse_argv-arguments true true false (some "-h")
