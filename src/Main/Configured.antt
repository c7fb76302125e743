-- ===== src/Main/Configured.antt =====
-- From the command line and the configuration file to what the threads of src/main.c run on.
use knockd.Prelude.{
  ℕ, ◌≤◌, ◌≡◌, ◌≢◌, refl, sym, ap, subst, ◌∙◌, Bool, true, some, List, [], ◌∷◌, length, take, pos,
  inl, inr, if◌then◌else◌, Bool-cases, arith,
}
use Prim.Native.String.{String}
use knockd.Settings.{Settings}
use knockd.Config.{Config, settings, set_sequence, copy_over, defaults}
use knockd.Config.Load.{config_load}
use knockd.Config.Validate.{IsChecked}
use knockd.Config.Written.{file_of}
use knockd.Config.Spelling.{Choice, chosen, Spelling, lines, config_load-Spelling}
use knockd.Firewall
use knockd.Firewall.Lifecycle.{fresh}
use knockd.Sniffer.Socket.{Net, choose_interface, sniffer_init}
use knockd.Daemon.{Daemon, start, run_processor}
use knockd.Logger.{no_logger, logger_init}
use knockd.Main.{World, Exit, opened_by, cleanup, launch, with_verbose, loaded, main}
use knockd.Main.Args.{Options}
use knockd.Main.CommandLine.{arguments, parse_argv-arguments}
use knockd.Main.Runs.{configure_runs, launch-start, capture_runs}

take-copy_over :
    (src dst : List ℕ) → length src ≤ length dst → take (length src) (copy_over src dst) ≡ src
unfolding copy_over
take-copy_over [] dst l = refl
take-copy_over (x ∷ src) [] l = absurd (omega (arith, l))
take-copy_over (x ∷ src) (y ∷ dst) l = ap (λ r. x ∷ r) (take-copy_over src dst (omega (arith, l)))

-- What the threads read of a choice.
abbrev pub settings_of : Choice → Settings
settings_of ch = record {
  knock_sequence = ch.ports;
  protected_port = ch.port;
  access_timeout = ch.timeout;
  knock_window = ch.window;
  max_clients = ch.max_clients;
}

-- The globals of a choice, with `-v` or without.
abbrev pub globals_of : Choice → Bool → Config
globals_of ch verbose = record (chosen ch) {
  log_level = if verbose then pos 3 else pos ch.log_level;
}

globals-settings :
    (ch : Choice) (verbose : Bool)
    → length ch.ports ≤ 16
    → settings (globals_of ch verbose) ≡ settings_of ch
unfolding settings set_sequence
globals-settings ch verbose l = simp (take-copy_over ch.ports defaults.knock_sequence l) refl

loaded-globals :
    (w : World) (ch : Choice) (sp : Spelling ch) (o : Options)
    → IsChecked (chosen ch)
    → w.file o.config_file ≡ some (file_of (lines ch sp))
    → loaded w o ≡ globals_of ch o.verbose
unfolding with_verbose set_sequence
loaded-globals w ch sp o k e =
    let read : config_load (w.file o.config_file) defaults ≡ chosen ch =
      ap (λ f. config_load f defaults) e ∙ config_load-Spelling ch sp k in
    elim (Bool-cases o.verbose) [ inl v ↦ simp (v, read) refl | inr v ↦ simp (v, read) refl ]

-- The interface, if one is given, has this index; 0 is for none.
abbrev pub HasIndex : (List ℕ → ℕ) → List ℕ → Type 0
HasIndex index [] = Unit
HasIndex index (c ∷ cs) = index (c ∷ cs) ≢ 0

choose_interface_lem :
    (net : Net) (fd : ℕ) (timed : Bool) (interface : List ℕ)
    → HasIndex net.if_nametoindex interface
    → (choose_interface net fd timed interface).sock_fd ≡ some fd
unfolding choose_interface
choose_interface_lem net fd timed [] h = refl
choose_interface_lem net fd timed (c ∷ cs) h = ground (arith, h)

sniffer_init_lem :
    (c : Config) (net : Net) (fd : ℕ)
    → net.socket ≡ some fd
    → HasIndex net.if_nametoindex c.knock_interface
    → (sniffer_init c net).sock_fd ≡ some fd
unfolding sniffer_init
sniffer_init_lem c net fd e h =
    simp (e, sniffer_init) (choose_interface_lem net fd net.setsockopt c.knock_interface h)

-- Where `main` runs as root, the file that `-c` or `--config` names is one written from a choice of
-- values that `config_validate` has nothing against, the tables and the chain of that choice can be set
-- up, there is a socket, the choice's interface, if it has one, is known, and the thread is created:
-- `main` returns 0, the globals are those of the choice, but for the log level, which is that of debug
-- logging if `-v` is given, and the firewall is left as by a shutdown after the processor's turns on
-- the ports, the timeout, the window and the table size of the choice.
pub main_obeys :
    (w : World) (ch : Choice) (sp : Spelling ch) (long verbose use_syslog : Bool) (file : String)
    (fd : ℕ) (d : Daemon)
    → IsChecked (chosen ch)
    → w.is_root ≡ true
    → w.file file ≡ some (file_of (lines ch sp))
    → start (settings_of ch) w.env w.clients_allocated w.grants_allocated w.now fresh ≡ some d
    → w.net.socket ≡ some fd
    → HasIndex w.net.if_nametoindex ch.interface
    → w.thread_created ≡ true
    → let x = main w (arguments long verbose use_syslog (some file)) in
      (x.exit_code ≡ 0)
      × (x.globals ≡ record (chosen ch) { log_level = if verbose then pos 3 else pos ch.log_level })
      × (x.firewall
          ≡ Firewall.shutdown w.env (run_processor (settings_of ch) w.env d w.turns).firewall)
unfolding main cleanup set_sequence
main_obeys w ch sp long verbose use_syslog file fd d k root e st net named made =
    let o : Options = record {
      config_file = file;
      config_explicit = true;
      verbose = verbose;
      use_syslog = use_syslog;
    } in
    let log = logger_init use_syslog no_logger in
    let c = globals_of ch verbose in
    let same = globals-settings ch verbose sp.few_ports in
    let started = launch-start w c log d (
      subst (λ s. start s w.env w.clients_allocated w.grants_allocated w.now fresh ≡ some d)
        (sym same) st) in
    let sock = sniffer_init_lem c w.net fd net named in
    let runs : main w (arguments long verbose use_syslog (some file))
        ≡ cleanup w c 0 (some (run_processor (settings c) w.env d w.turns).clients)
            (run_processor (settings c) w.env d w.turns).firewall (opened_by w.net.socket)
            (sniffer_init c w.net) log =
      simp (parse_argv-arguments long verbose use_syslog (some file), main)
        (configure_runs w o (root, inl (simp e refl))
          ∙ (ap (λ g. launch w g log) (loaded-globals w ch sp o k e)
              ∙ (started.0
                  ∙ capture_runs w c d (sniffer_init c w.net) log fd sock made started.1))) in
    (
      ap (λ (x : Exit). x.exit_code) runs,
      ap (λ (x : Exit). x.globals) runs,
      ap (λ (x : Exit). x.firewall) runs
          ∙ ap (λ s. Firewall.shutdown w.env (run_processor s w.env d w.turns).firewall) same,
    )
