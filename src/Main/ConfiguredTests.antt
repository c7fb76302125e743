-- ===== src/Main/ConfiguredTests.antt =====
-- A daemon that is started with a configuration file, and lets a client in.
use knockd.Prelude.{◌≡◌, refl, true, false, some, [], ◌∷◌, replicate, arith}
use knockd.Config.Written.{file_of}
use knockd.Config.Spelling.{chosen, lines}
use knockd.Config.SpellingTests.{choice, spelling, choice-IsChecked}
use knockd.Prelude.{pos}
use knockd.Knocker
use knockd.Firewall
use knockd.Firewall.{add_jump, check_jump, flush_chain, new_chain, hook, exec}
use knockd.Firewall.Lifecycle.{fresh}
use knockd.Daemon.{Daemon, start, run_processor}
use knockd.Main.{World, main}
use knockd.Main.CommandLine.{arguments}
use knockd.Main.Tests.{world, knock}
use knockd.Main.Configured.{settings_of, main_obeys}

-- The client knocks the ports of the file.
abbrev host : World
host = record world {
  file = λ name. some (file_of (lines choice spelling));
  net = record { socket = some 5; setsockopt = true; if_nametoindex = λ name. 2 };
  turns =
      record {
        arrived = knock 101 1000 ∷ knock 102 2000 ∷ [];
        ticked = 104;
        now = 104;
        swept = 104;
      }
      ∷ [];
}

abbrev started : Daemon
started = record {
  clients = replicate 16 Knocker.zeroed;
  firewall = record {
    grants = some (replicate 16 Firewall.zeroed);
    added_jump = true;
    ran = (add_jump, true) ∷ (check_jump, false) ∷ (flush_chain, true) ∷ (new_chain, true) ∷ [];
  };
  last_cleanup = 100;
}

host-start : start (settings_of choice) host.env true true 100 fresh ≡ some started
unfolding start Knocker.init Firewall.init hook exec
host-start = refl

main_obeys_example :
    let x = main host (arguments true true false (some "/tmp/knockd.conf")) in
    (x.exit_code ≡ 0)
    × (x.globals ≡ record (chosen choice) { log_level = pos 3 })
    × (x.firewall
        ≡ Firewall.shutdown host.env
            (run_processor (settings_of choice) host.env started host.turns).firewall)
main_obeys_example =
    main_obeys host choice spelling true true false "/tmp/knockd.conf" 5 started choice-IsChecked
      refl refl host-start refl (λ e. absurd (ground (arith, e))) refl
