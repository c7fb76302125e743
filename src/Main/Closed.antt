-- ===== src/Main/Closed.antt =====
-- However `main` of src/main.c ends, the KNOCKD chain is closed.
use knockd.Prelude.{ℕ, ◌≡◌, refl, ◌⊎◌, inl, inr, true, List, [], ◌&&◌, Bool-cases, Option-cases}
use Prim.Native.String.{String}
use knockd.Config.{Config, settings, defaults}
use knockd.Config.Load.{config_load}
use knockd.Knocker
use knockd.Firewall
use knockd.Firewall.{Env, flush_chain, Runs, Grant, Firewall, ok, failed}
use knockd.Firewall.Lifecycle.{fresh, init-Balanced}
use knockd.Firewall.Chain.{IsChain}
use knockd.Firewall.Chain.Shut.{IsShut, init-IsShut, shutdown_closes, init_table}
use knockd.Sniffer.Socket.{Opening, sniffer_init}
use knockd.Daemon.{Daemon, run_processor}
use knockd.Daemon.Ready.{run_processor-IsReady}
use knockd.Logger.{Logger, no_logger, logger_init}
use knockd.Main.{World, Exit, cleanup, capture, launch, is_missing, with_verbose, configure, main}
use knockd.Main.Leaves.{status-cases}
use knockd.Main.Args.{
  Options, Parsed, goes_on, shows_help, shows_version, wants_file, unknown_option, parse_argv,
}

module _ (rules : Runs → ℕ → ℕ) (chain : IsChain rules) (w : World) (ip : ℕ)
    (flushes : (ran : Runs) → w.env.succeeds ran flush_chain ≡ true) where
  abbrev LeavesShut : Exit → Type 0
  LeavesShut x = IsShut rules chain w.env ip flushes x.firewall.ran

  capture-LeavesShut :
      (c : Config) (clients : Knocker.Table) (o : Opening) (log : Logger)
      → (Firewall.init w.env (settings c) w.grants_allocated fresh).0 ≡ ok
      → LeavesShut
          (capture w c clients (Firewall.init w.env (settings c) w.grants_allocated fresh).1 o log)
  unfolding capture cleanup
  capture-LeavesShut c clients o log up =
      let s = settings c in
      let fw = (Firewall.init w.env s w.grants_allocated fresh).1 in
      let (gs, t) = init_table w.env s w.grants_allocated up in
      let early = shutdown_closes rules chain w.env ip flushes fw (inr (gs, t)) in
      let d : Daemon = record { clients = clients; firewall = fw; last_cleanup = w.now } in
      let (gs', t', _) =
        run_processor-IsReady s w.env d w.turns (gs, t, init-Balanced w.env s w.grants_allocated) in
      let late =
        shutdown_closes rules chain w.env ip flushes (run_processor s w.env d w.turns).firewall
          (inr (gs', t')) in
      elim (Option-cases o.sock_fd) [
        | inl e ↦ simp (e, capture) early
        | inr (fd, e) ↦ elim (Bool-cases w.thread_created) [
          | inr f ↦ simp (e, f, capture) early
          | inl f ↦ simp (e, f, capture) late
        ]
      ]

  launch-LeavesShut : (c : Config) (log : Logger) → LeavesShut (launch w c log)
  unfolding launch cleanup Firewall.shutdown
  launch-LeavesShut c log =
      let s = settings c in
      let (status, fw) = Firewall.init w.env s w.grants_allocated fresh in
      let opened = init-IsShut rules chain w.env ip flushes s w.grants_allocated in
      elim (Option-cases (Knocker.init s w.clients_allocated)) [
        | inl e ↦ simp (e, launch) (inr refl)
        | inr (cs, e) ↦ elim (status-cases status) [
          | inl f ↦ simp (e, f, launch) (capture-LeavesShut c cs (sniffer_init c w.net) log f)
          | inr f ↦
              simp (e, f, launch) (shutdown_closes rules chain w.env ip flushes fw (inl opened))
        ]
      ]

  configure-LeavesShut : (o : Options) → LeavesShut (configure w o)
  unfolding configure
  configure-LeavesShut o = elim (Bool-cases w.is_root) [
    | inr e ↦ simp e (inr refl)
    | inl e ↦ elim (Bool-cases (is_missing (w.file o.config_file) && o.config_explicit)) [
      | inl f ↦ simp (e, f) (inr refl)
      | inr f ↦
          simp (e, f)
            (launch-LeavesShut
              (with_verbose o.verbose (config_load (w.file o.config_file) defaults))
              (logger_init o.use_syslog no_logger))
    ]
  ]

  main-LeavesShut : (args : List String) → LeavesShut (main w args)
  unfolding main
  main-LeavesShut args = go (parse_argv args) refl
    where
      go : (p : Parsed) → parse_argv args ≡ p → LeavesShut (main w args)
      go shows_help e = simp (e, main) (inr refl)
      go shows_version e = simp (e, main) (inr refl)
      go (wants_file option) e = simp (e, main) (inr refl)
      go (unknown_option arg) e = simp (e, main) (inr refl)
      go (goes_on o) e = simp (e, main) (configure-LeavesShut o)

-- If iptables changes the chain as documented and never refuses to empty it: however `main` ends, with
-- whatever arguments, configuration file, other failures and events, either it has not run iptables at
-- all, or no rule of the chain lets any address in.
pub main_closes :
    (rules : Runs → ℕ → ℕ) (w : World) (args : List String) (ip : ℕ)
    → IsChain rules
    → ((ran : Runs) → w.env.succeeds ran flush_chain ≡ true)
    → let ran = (main w args).firewall.ran in (rules ran ip ≡ 0) ⊎ (ran ≡ [])
main_closes rules w args ip chain flushes = main-LeavesShut rules chain w ip flushes args
