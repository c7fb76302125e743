-- ===== src/Main/Leaves.antt =====
-- However `main` of src/main.c ends, it takes back what it set up.
use knockd.Prelude.{
  Option, some, Bool, false, ℕ, ◌≤◌, ◌≡◌, refl, ◌⊎◌, inl, inr, ◌&&◌, none, List, [], ◌++◌,
  Bool-cases, Option-cases, arith,
}
use Prim.Native.String.{String}
use knockd.Settings.{Settings}
use knockd.Config.{Config, settings, defaults}
use knockd.Config.Load.{config_load}
use knockd.Knocker
use knockd.Firewall
use knockd.Firewall.{Env, Firewall, Status, ok, failed}
use knockd.Firewall.Lifecycle.{fresh, hooked, unhooked, after}
use knockd.Firewall.Jump.{jump_restored}
use knockd.Sniffer.Socket.{Net, Opening, choose_interface, sniffer_init, sniffer_close}
use knockd.Daemon.{Daemon, run_processor}
use knockd.Main.{
  World, Exit, returns, no_socket, opened_by, cleanup, capture, launch, is_missing, with_verbose,
  configure, main,
}
use knockd.Logger.{Logger, no_logger, logger_init, logger_close}
use knockd.Main.Args.{
  Options, Parsed, goes_on, shows_help, shows_version, wants_file, unknown_option, parse_argv,
}
use knockd.Daemon.Called.{CalledFrom, run_processor-CalledFrom}

-- The jump from INPUT was taken back if it was put there, the grants were released, each socket was
-- closed, once, there is no connection to syslog, and the client table is released.
abbrev pub IsClean : Exit → Type 0
IsClean x =
    (unhooked x.firewall.ran ≡ hooked x.firewall.ran)
    × (hooked x.firewall.ran ≤ 1)
    × (x.firewall.grants ≡ none)
    × (x.closed ≡ x.opened)
    × (x.logger.connected ≡ false)
    × (x.clients ≡ none)

-- The connection is there exactly if syslog is used.
abbrev IsTidy : Logger → Type 0
IsTidy log = log.connected ≡ log.use_syslog

logger_close-connected : (log : Logger) → IsTidy log → (logger_close log).connected ≡ false
unfolding logger_close
logger_close-connected log t = ground (arith, t)

logger_init-IsTidy : (use_syslog : Bool) → IsTidy (logger_init use_syslog no_logger)
unfolding logger_init
logger_init-IsTidy use_syslog = ground arith

sniffer_init-closed :
    (c : Config) (net : Net)
    → sniffer_close (sniffer_init c net).sock_fd ++ (sniffer_init c net).closed
      ≡ opened_by net.socket
unfolding sniffer_init choose_interface sniffer_close
sniffer_init-closed c net = ground arith

cleanup-IsClean :
    (w : World) (s : Settings) (c : Config) (code : ℕ) (clients : Option Knocker.Table)
    (fw : Firewall) (opened : List ℕ) (o : Opening) (log : Logger)
    → IsTidy log
    → CalledFrom w.env s (Firewall.init w.env s w.grants_allocated fresh).1 fw
    → sniffer_close o.sock_fd ++ o.closed ≡ opened
    → IsClean (cleanup w c code clients fw opened o log)
unfolding cleanup Knocker.shutdown
cleanup-IsClean w s c code clients fw opened o log t (cs, k) e =
    let j = jump_restored w.env s w.grants_allocated cs in
    rw k (j.0, j.1, j.2, e, logger_close-connected log t, refl)

capture-IsClean :
    (w : World) (c : Config) (clients : Knocker.Table) (log : Logger)
    → IsTidy log
    → IsClean (
        capture w c clients
          (Firewall.init w.env (settings c) w.grants_allocated fresh).1
          (sniffer_init c w.net)
          log)
unfolding capture after
capture-IsClean w c clients log t =
    let s = settings c in
    let fw = (Firewall.init w.env s w.grants_allocated fresh).1 in
    let o = sniffer_init c w.net in
    let opened = opened_by w.net.socket in
    let same = sniffer_init-closed c w.net in
    let d : Daemon = record { clients = clients; firewall = fw; last_cleanup = w.now } in
    let early = cleanup-IsClean w s c 1 (some clients) fw opened o log t ([], refl) same in
    elim (Option-cases o.sock_fd) [
      | inl e ↦ simp (e, capture) early
      | inr (fd, e) ↦ elim (Bool-cases w.thread_created) [
        | inr f ↦ simp (e, f, capture) early
        | inl f ↦
            let k = run_processor-CalledFrom w.env s fw d w.turns ([], refl) in
            simp (e, f, capture)
              (cleanup-IsClean w s c 0 (some (run_processor s w.env d w.turns).clients)
                (run_processor s w.env d w.turns).firewall opened o log t k same)
      ]
    ]

fresh-IsClean :
    (w : World) (c : Config) (code : ℕ) (log : Logger)
    → IsTidy log
    → IsClean (cleanup w c code none fresh [] no_socket log)
unfolding cleanup Knocker.shutdown Firewall.shutdown sniffer_close hooked unhooked
fresh-IsClean w c code log t = (refl, omega arith, refl, refl, logger_close-connected log t, refl)

pub status-cases : (st : Status) → (st ≡ ok) ⊎ (st ≡ failed)
status-cases ok = inl refl
status-cases failed = inr refl

launch-IsClean : (w : World) (c : Config) (log : Logger) → IsTidy log → IsClean (launch w c log)
unfolding launch after sniffer_close
launch-IsClean w c log t =
    let s = settings c in
    let (status, fw) = Firewall.init w.env s w.grants_allocated fresh in
    elim (Option-cases (Knocker.init s w.clients_allocated)) [
      | inl e ↦ simp (e, launch) (fresh-IsClean w c 1 log t)
      | inr (cs, e) ↦ elim (status-cases status) [
        | inl f ↦ simp (e, f, launch) (capture-IsClean w c cs log t)
        | inr f ↦
            simp (e, f, launch)
              (cleanup-IsClean w s c 1 (some cs) fw [] no_socket log t ([], refl) refl)
      ]
    ]

returns-IsClean : (code : ℕ) → IsClean (returns code)
unfolding hooked unhooked
returns-IsClean code = (refl, omega arith, refl, refl, refl, refl)

configure-IsClean : (w : World) (o : Options) → IsClean (configure w o)
unfolding configure
configure-IsClean w o = elim (Bool-cases w.is_root) [
  | inr e ↦ simp e (returns-IsClean 1)
  | inl e ↦ elim (Bool-cases (is_missing (w.file o.config_file) && o.config_explicit)) [
    | inl f ↦
        let r = returns-IsClean 1 in
        simp (e, f)
          (r.0, r.1, r.2, r.3, logger_close-connected _ (logger_init-IsTidy o.use_syslog), refl)
    | inr f ↦
        simp (e, f)
          (launch-IsClean w (with_verbose o.verbose (config_load (w.file o.config_file) defaults))
            (logger_init o.use_syslog no_logger) (logger_init-IsTidy o.use_syslog))
  ]
]

-- However `main` ends, with whatever arguments, configuration file, failures of the operating system
-- or of iptables and events: it asked for the jump from INPUT to be deleted once if it inserted it
-- and never otherwise, it inserted it once at most, it released the grants, it closed the socket once
-- if it opened one, it left no connection to syslog, and it released the client table.
pub main-IsClean : (w : World) (args : List String) → IsClean (main w args)
unfolding main
main-IsClean w args = go (parse_argv args) refl
  where
    go : (p : Parsed) → parse_argv args ≡ p → IsClean (main w args)
    go shows_help e = simp (e, main) (returns-IsClean 0)
    go shows_version e = simp (e, main) (returns-IsClean 0)
    go (wants_file option) e = simp (e, main) (returns-IsClean 1)
    go (unknown_option arg) e = simp (e, main) (returns-IsClean 1)
    go (goes_on o) e = simp (e, main) (configure-IsClean w o)
