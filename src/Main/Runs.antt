-- ===== src/Main/Runs.antt =====
-- What `main` of src/main.c does with the two threads: `main` on a list of turns is what it is on the
-- steps of both threads, in whatever order they come.
use knockd.Prelude.{ℕ, ◌≡◌, refl, sym, ap, ◌∙◌, subst, true, inr, some, List, arith}
use Prim.Native.String.{String}
use knockd.Config.{Config, settings}
use knockd.Firewall.Lifecycle.{fresh}
use knockd.Sniffer.Socket.{Opening, sniffer_init}
use knockd.Daemon.{Daemon, start, run_processor}
use knockd.Daemon.Threads.{Threads, stopped, boot, Reach}
use knockd.Daemon.Progress.{turns_in}
use knockd.Daemon.Turns.{threads_refine}
use knockd.Logger.{Logger, no_logger, logger_init}
use knockd.Main.{loaded, World, Exit, opened_by, cleanup, capture, launch, configure, main}
use knockd.Main.Args.{Options, goes_on, parse_argv}
use knockd.Main.Exits.{MayRun}
use knockd.Main.Leaves.{IsClean, main-IsClean}

pub launch-start :
    (w : World) (c : Config) (log : Logger) (d : Daemon)
    → start (settings c) w.env w.clients_allocated w.grants_allocated w.now fresh ≡ some d
    → (launch w c log ≡ capture w c d.clients d.firewall (sniffer_init c w.net) log)
      × (d.last_cleanup ≡ w.now)
unfolding launch start
launch-start w c log d e = ground arith

pub configure_runs :
    (w : World) (o : Options)
    → MayRun w o
    → configure w o ≡ launch w (loaded w o) (logger_init o.use_syslog no_logger)
unfolding configure
configure_runs w o m = ground (arith, m.0, m.1)

pub capture_runs :
    (w : World) (c : Config) (d : Daemon) (o : Opening) (log : Logger) (fd : ℕ)
    → o.sock_fd ≡ some fd
    → w.thread_created ≡ true
    → d.last_cleanup ≡ w.now
    → capture w c d.clients d.firewall o log
      ≡ cleanup w c 0
          (some (run_processor (settings c) w.env d w.turns).clients)
          (run_processor (settings c) w.env d w.turns).firewall
          (opened_by w.net.socket)
          o
          log
unfolding capture
capture_runs w c d o log fd f h l = simp (f, h, sym l, capture) refl

-- What `main` leaves when the processor thread of `t` is done.
abbrev pub left_by : World → Options → Threads → Exit
left_by w o t =
    cleanup w (loaded w o) 0 (some t.daemon.clients) t.daemon.firewall (opened_by w.net.socket)
      (sniffer_init (loaded w o) w.net) (logger_init o.use_syslog no_logger)

-- Where `main` gets as far as starting the capture thread: whatever steps the two threads then take,
-- in whatever order, until the processor is done, what `main` returns after these steps is what it
-- returns on the turns that the processor went through; and then it has taken back what it set up.
pub main_runs :
    (w : World) (args : List String) (o : Options) (fd : ℕ) (d : Daemon) (t : Threads)
    → parse_argv args ≡ goes_on o
    → MayRun w o
    → start (settings (loaded w o)) w.env w.clients_allocated w.grants_allocated w.now fresh
      ≡ some d
    → (sniffer_init (loaded w o) w.net).sock_fd ≡ some fd
    → w.thread_created ≡ true
    → (r : Reach (settings (loaded w o)) w.env (sniffer_init (loaded w o) w.net).ifindex (boot d) t)
    → t.processor ≡ stopped
    → (main (record w { turns = turns_in r }) args ≡ left_by w o t) × IsClean (left_by w o t)
unfolding main cleanup
main_runs w args o fd d t p m e f h r ph =
    let c = loaded w o in
    let log = logger_init o.use_syslog no_logger in
    let us = turns_in r in
    let (same, _) =
      threads_refine (settings c) w.env (sniffer_init c w.net).ifindex d t r (inr ph) in
    let w' = record w { turns = us } in
    let l = launch-start w' c log d e in
    let runs : main w' args ≡ left_by w o t =
      simp (p, main) (configure_runs w' o m)
      ∙ (l.0
          ∙ (capture_runs w' c d (sniffer_init c w.net) log fd f h l.1
              ∙ ap
                  (λ (k : Daemon).
                    cleanup w c 0 (some k.clients) k.firewall (opened_by w.net.socket)
                      (sniffer_init c w.net) log)
                  (sym same))) in
    (runs, subst IsClean runs (main-IsClean w' args))
