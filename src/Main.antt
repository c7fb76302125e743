-- ===== src/Main.antt =====
-- The program: `main` of src/main.c, from its arguments to its exit code. What it asks of the
-- operating system, and what arrives while it runs, is a `World`.
pub mod Args
pub mod CommandLine
pub mod Banner
pub mod Leaves
pub mod Exits
pub mod Runs
pub mod Closed
pub mod Configured
pub mod Usage
mod Tests
mod BannerTests
mod RunsTests
mod ClosedTests
mod ConfiguredTests
mod UsageTests
use Prim.Native.String.{String}
use knockd.Prelude.{
  ℕ, Bool, true, false, not, ◌&&◌, Option, none, some, List, [], ◌∷◌, ◌++◌, if◌then◌else◌, pos,
}
use knockd.Settings.{Settings}
use knockd.Config.{Config, defaults, settings}
use knockd.Config.Load.{config_load}
use knockd.Knocker
use knockd.Firewall
use knockd.Firewall.{Env, Firewall, Status, ok, failed}
use knockd.Firewall.Lifecycle.{fresh}
use knockd.Sniffer.Socket.{Net, Opening, sniffer_init, sniffer_close}
use knockd.Daemon.{Daemon, Turn, run_processor}
use knockd.Logger.{Logger, no_logger, logger_init, logger_close}
use knockd.Main.Args.{
  Options, Parsed, goes_on, shows_help, shows_version, wants_file, unknown_option, parse_argv,
}

-- `file` gives the bytes of a file that can be opened. The Booleans say whether the process is root,
-- whether the two calls of `calloc` and `pthread_create` succeed; `now` is the time that
-- `run_processor` reads first and `turns` is what its loop goes through until `g_running` is cleared.
pub record World : Type 0 where
  pub file : String → Option (List ℕ)
  pub is_root : Bool
  pub clients_allocated : Bool
  pub grants_allocated : Bool
  pub thread_created : Bool
  pub net : Net
  pub env : Env
  pub now : ℕ
  pub turns : List Turn

-- What is left: the exit code, the configuration globals, the two tables, the sockets that were opened
-- and closed, and the logger.
pub record Exit : Type 0 where
  pub exit_code : ℕ
  pub globals : Config
  pub clients : Option Knocker.Table
  pub firewall : Firewall
  pub opened : List ℕ
  pub closed : List ℕ
  pub logger : Logger

-- A return before anything is set up.
abbrev pub returns : ℕ → Exit
returns code = record {
  exit_code = code;
  globals = defaults;
  clients = none;
  firewall = fresh;
  opened = [];
  closed = [];
  logger = no_logger;
}

abbrev pub no_socket : Opening
no_socket = record { sock_fd = none; times_out = false; ifindex = 0; closed = [] }

-- The descriptors that `socket` gave.
abbrev pub opened_by : Option ℕ → List ℕ
opened_by none = []
opened_by (some fd) = fd ∷ []

-- What follows the label `cleanup`, behind `pktqueue_shutdown` and the join of the capture thread, which
-- are steps of the threads: `sniffer_close`, `firewall_shutdown`, `knocker_shutdown`, `logger_close`.
unfoldable pub cleanup :
    World → Config → ℕ → Option Knocker.Table → Firewall → List ℕ → Opening → Logger → Exit
cleanup w c code clients fw opened o log = record {
  exit_code = code;
  globals = c;
  clients = Knocker.shutdown clients;
  firewall = Firewall.shutdown w.env fw;
  opened = opened;
  closed = sniffer_close o.sock_fd ++ o.closed;
  logger = logger_close log;
}

-- From the socket on.
unfoldable pub capture : World → Config → Knocker.Table → Firewall → Opening → Logger → Exit
capture w c clients fw o log =
    let d : Daemon = record { clients = clients; firewall = fw; last_cleanup = w.now } in
    let opened = opened_by w.net.socket in
    elim o.sock_fd [
      | none ↦ cleanup w c 1 (some clients) fw opened o log
      | some fd ↦
          if not w.thread_created
          then cleanup w c 1 (some clients) fw opened o log
          else (let d1 = run_processor (settings c) w.env d w.turns in
              cleanup w c 0 (some d1.clients) d1.firewall opened o log)
    ]

-- From `knocker_init` on.
unfoldable pub launch : World → Config → Logger → Exit
launch w c log = elim (Knocker.init (settings c) w.clients_allocated) [
  | none ↦ cleanup w c 1 none fresh [] no_socket log
  | some clients ↦
      let (status, fw) = Firewall.init w.env (settings c) w.grants_allocated fresh in
      elim status [
        | failed ↦ cleanup w c 1 (some clients) fw [] no_socket log
        | ok ↦ capture w c clients fw (sniffer_init c w.net) log
      ]
]

-- `config_load` answers -1 where the file cannot be opened.
abbrev pub is_missing : Option (List ℕ) → Bool
is_missing none = true
is_missing (some bytes) = false

-- `-v` wins over log_level.
unfoldable pub with_verbose : Bool → Config → Config
with_verbose verbose c = if verbose then record c { log_level = pos 3 } else c

-- The globals that `main` starts up with: those of `config_load`, and `-v` on top.
abbrev pub loaded : World → Options → Config
loaded w o = with_verbose o.verbose (config_load (w.file o.config_file) defaults)

-- From the test for root on.
unfoldable pub configure : World → Options → Exit
configure w o =
    let file = w.file o.config_file in
    let log = logger_init o.use_syslog no_logger in
    if not w.is_root
    then returns 1
    else if is_missing file && o.config_explicit
    then record (returns 1) { globals = config_load file defaults; logger = logger_close log }
    else launch w (loaded w o) log

-- The arguments are argv[1] on.
unfoldable pub main : World → List String → Exit
main w args = elim (parse_argv args) [
  | shows_help ↦ returns 0
  | shows_version ↦ returns 0
  | wants_file option ↦ returns 1
  | unknown_option arg ↦ returns 1
  | goes_on o ↦ configure w o
]
