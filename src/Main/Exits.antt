-- ===== src/Main/Exits.antt =====
-- When `main` of src/main.c exits with which code, and what it had set up by then.
use knockd.Prelude.{
  ◌≤◌, ◌≡◌, ◌↔◌, refl, ◌⊎◌, inl, inr, Bool, true, false, ◌&&◌, Option, none, some, List, Bool-cases,
  arith,
}
use Prim.Native.String.{String}
use knockd.Config.{Config, settings}
use knockd.Knocker
use knockd.Firewall
use knockd.Firewall.{Env, Firewall, Status, ok, failed}
use knockd.Firewall.Lifecycle.{fresh}
use knockd.Sniffer.Socket.{sniffer_init}
use knockd.Main.{
  World, Exit, returns, cleanup, capture, launch, is_missing, loaded, configure, main,
}
use knockd.Logger.{Logger, no_logger, logger_init, logger_close}
use knockd.Main.Args.{
  Options, Parsed, goes_on, shows_help, shows_version, wants_file, unknown_option, parse_argv,
}

abbrev pub is_present {ℓ} : {A : Type ℓ} → Option A → Bool
is_present none = false
is_present (some a) = true

-- Both tables, the chain, the socket and the thread could be had.
pub record IsUp (w : World) (c : Config) : Type 0 where
  pub clients : w.clients_allocated ≡ true
  pub chain : (Firewall.init w.env (settings c) w.grants_allocated fresh).0 ≡ ok
  pub socket : is_present (sniffer_init c w.net).sock_fd ≡ true
  pub thread : w.thread_created ≡ true

launch-zero : (w : World) (c : Config) (log : Logger) → ((launch w c log).exit_code ≡ 0) ↔ IsUp w c
unfolding launch capture cleanup Knocker.init
launch-zero w c log = (λ h. ground arith, λ u. ground arith)

launch-code : (w : World) (c : Config) (log : Logger) → (launch w c log).exit_code ≤ 1
unfolding launch capture cleanup
launch-code w c log = ground arith

-- Root, with a file that can be opened or that was not asked for.
abbrev pub MayRun : World → Options → Type 0
MayRun w o =
    (w.is_root ≡ true) × ((is_present (w.file o.config_file) ≡ true) ⊎ (o.config_explicit ≡ false))

-- Why the exit code is 0.
abbrev pub Succeeds : World → Parsed → Type 0
Succeeds w shows_help = Unit
Succeeds w shows_version = Unit
Succeeds w (wants_file option) = ⊥
Succeeds w (unknown_option arg) = ⊥
Succeeds w (goes_on o) = MayRun w o × IsUp w (loaded w o)

configure_exit :
    (w : World) (o : Options)
    → ((configure w o).exit_code ≤ 1)
      × (((configure w o).exit_code ≡ 0) ↔ (MayRun w o × IsUp w (loaded w o)))
unfolding configure
configure_exit w o =
    let log = logger_init o.use_syslog no_logger in
    let code = launch-code w (loaded w o) log in
    let z = launch-zero w (loaded w o) log in
    elim (Bool-cases w.is_root) [
      | inr e ↦ ground (arith, e)
      | inl e ↦ elim (Bool-cases (is_missing (w.file o.config_file) && o.config_explicit)) [
        | inl f ↦ ground (arith, e, f)
        | inr f ↦ simp (e, f) (code, (λ h. ((refl, ground (arith, f)), z.0 h), λ r. z.1 r.1))
      ]
    ]

-- `main` returns 0 or 1. It returns 0 exactly if it was asked for the help or the version, or runs
-- as root, could open the configuration file or was not given one with `-c`, and had both tables, the
-- chain, the socket and the thread.
pub main_exit :
    (w : World) (args : List String)
    → ((main w args).exit_code ≤ 1) × (((main w args).exit_code ≡ 0) ↔ Succeeds w (parse_argv args))
unfolding main
main_exit w args = go (parse_argv args) refl
  where
    go :
        (p : Parsed)
        → parse_argv args ≡ p
        → ((main w args).exit_code ≤ 1)
          × (((main w args).exit_code ≡ 0) ↔ Succeeds w (parse_argv args))
    go shows_help e = simp (e, main) (omega arith, ((λ h. tt), λ h. refl))
    go shows_version e = simp (e, main) (omega arith, ((λ h. tt), λ h. refl))
    go (wants_file option) e = simp (e, main) (omega arith, ((λ h. omega arith), λ h. absurd h))
    go (unknown_option arg) e = simp (e, main) (omega arith, ((λ h. omega arith), λ h. absurd h))
    go (goes_on o) e = simp (e, main) (configure_exit w o)

-- Nothing but an exit code, and the globals as they are.
abbrev pub did_nothing : Exit → Exit
did_nothing x = record (returns x.exit_code) { globals = x.globals }

-- What lets `main` go on to its start.
abbrev pub MayStart : World → Parsed → Type 0
MayStart w shows_help = ⊥
MayStart w shows_version = ⊥
MayStart w (wants_file option) = ⊥
MayStart w (unknown_option arg) = ⊥
MayStart w (goes_on o) = MayRun w o

logger_opened_closed :
    (use_syslog : Bool) → logger_close (logger_init use_syslog no_logger) ≡ no_logger
unfolding logger_init logger_close
logger_opened_closed true = refl
logger_opened_closed false = refl

configure-returns :
    (w : World) (o : Options) → ¬ MayRun w o → configure w o ≡ did_nothing (configure w o)
unfolding configure
configure-returns w o n = elim (Bool-cases w.is_root) [
  | inr e ↦ simp e refl
  | inl e ↦ elim (Bool-cases (is_missing (w.file o.config_file) && o.config_explicit)) [
    | inl f ↦ simp (e, f, logger_opened_closed o.use_syslog) refl
    | inr f ↦ absurd (n (e, ground (arith, f)))
  ]
]

-- Where `main` is asked for the help or the version, cannot take its arguments, is not root, or cannot
-- open the configuration file that `-c` names: it does nothing but return its exit code. It runs no
-- iptables and opens no socket.
pub never_started :
    (w : World) (args : List String)
    → ¬ MayStart w (parse_argv args)
    → main w args ≡ did_nothing (main w args)
unfolding main
never_started w args n = go (parse_argv args) refl n
  where
    go :
        (p : Parsed)
        → parse_argv args ≡ p
        → ¬ MayStart w p
        → main w args ≡ did_nothing (main w args)
    go shows_help e m = simp (e, main) refl
    go shows_version e m = simp (e, main) refl
    go (wants_file option) e m = simp (e, main) refl
    go (unknown_option arg) e m = simp (e, main) refl
    go (goes_on o) e m = simp (e, main) (configure-returns w o m)
