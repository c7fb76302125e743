-- ===== src/Main/RunsTests.antt =====
-- The threads run for one turn, a signal comes, and `main` returns.
use knockd.Prelude.{◌≡◌, refl, inl, inr, true, false, some, [], ◌∷◌, replicate}
use knockd.Config.{
  settings, validate, check_sequence, sequence_ok, has_zero, has_repeat, occurs, in_range_or,
  positive_or,
}
use knockd.Config.Load.{config_load}
use knockd.Knocker
use knockd.Firewall
use knockd.Firewall.{add_jump, check_jump, flush_chain, new_chain, hook, exec, tick}
use knockd.Firewall.Lifecycle.{fresh}
use knockd.Sniffer.Socket.{sniffer_init, choose_interface}
use knockd.Queue
use knockd.Queue.{pop}
use knockd.Daemon.{Daemon, Turn, start, scan_stale}
use knockd.Daemon.Progress.{turns_in}
use knockd.Daemon.Threads.{
  Threads, ProcessorPhase, waiting, ticking, scanning, stopped, boot, Reach, here, ProcessorStep,
  processes, signalled,
}
use knockd.Daemon.Threads
use knockd.Main.{loaded, main, with_verbose}
use knockd.Main.Args.{goes_on, parse_argv, parse_from, default_options}
use knockd.Main.Leaves.{IsClean}
use knockd.Main.Runs.{left_by, main_runs}
use knockd.Main.Tests.{world}

abbrev started : Daemon
started = record {
  clients = replicate 64 Knocker.zeroed;
  firewall = record {
    grants = some (replicate 64 Firewall.zeroed);
    added_jump = true;
    ran = (add_jump, true) ∷ (check_jump, false) ∷ (flush_chain, true) ∷ (new_chain, true) ∷ [];
  };
  last_cleanup = 100;
}

world-start :
    start (settings (loaded world default_options)) world.env true true 100 fresh ≡ some started
unfolding settings start Knocker.init Firewall.init hook exec with_verbose config_load validate
    check_sequence sequence_ok has_zero has_repeat occurs in_range_or positive_or
world-start = refl

world-socket : (sniffer_init (loaded world default_options) world.net).sock_fd ≡ some 5
unfolding sniffer_init choose_interface with_verbose config_load validate check_sequence sequence_ok
    has_zero has_repeat occurs in_range_or positive_or
world-socket = refl

abbrev times : Turn
times = record { arrived = []; ticked = 101; now = 106; swept = 106 }

abbrev waits : Threads
waits = record (boot started) { processor = waiting }

abbrev emptied : Threads
emptied = record waits { queue = (pop waits.queue).1; processor = ticking }

abbrev ticked : Threads
ticked = record emptied {
  processor = scanning;
  daemon = record emptied.daemon { firewall = tick world.env 101 emptied.daemon.firewall };
}

abbrev swept : Threads
swept = record ticked {
  processor = ProcessorPhase.at_test;
  daemon = scan_stale (settings (loaded world default_options)) times ticked.daemon;
}

abbrev done : Threads
done = record swept { running = false; processor = stopped }

to_done :
    Reach
      (settings (loaded world default_options))
      world.env
      (sniffer_init (loaded world default_options) world.net).ifindex
      (boot started)
      done
unfolding Queue.init pop boot
to_done =
    Threads.next
      (Threads.next
        (Threads.next
          (Threads.next
            (Threads.next (Threads.next here (processes (ProcessorStep.goes_on _ refl refl)))
              (processes (ProcessorStep.finds_nothing _ (inl refl) refl)))
            (processes (ProcessorStep.ticks _ 101 refl)))
          (processes (ProcessorStep.scans _ times refl)))
        (signalled _ refl))
      (processes (ProcessorStep.gives_up _ refl refl))

no_arguments : parse_argv [] ≡ goes_on default_options
unfolding parse_argv parse_from
no_arguments = refl

main_runs_example :
    (main (record world { turns = turns_in to_done }) [] ≡ left_by world default_options done)
    × IsClean (left_by world default_options done)
main_runs_example =
    main_runs world [] default_options 5 started done no_arguments (refl, inr refl) world-start
      world-socket refl to_done refl
